-- ===== src/Tags/Claim.antt =====
-- The tag that marks an instance as claimed: NodeClaimTag and NormalizeNodeClaimTagValue of
-- pkg/utils/utils.go, with the FNV-1a hash of hash/fnv and fmt's %08x.
use Prim.Native.Nat.{bit_xor}
use karpenter_provider_linod.Base.{
  ℕ, zero, suc, ◌+◌, ◌-◌, ◌*◌, ◌/◌, ◌%◌, ◌^◌, ◌≤◌, ◌≡◌, refl, ap, ◌≢◌, some, [], ◌∷◌, ◌++◌, arith,
  ltb, leb, ◌==◌, if◌then◌else◌, length, take, length-append, length-take, Text, codes, index_rune,
}
use karpenter_provider_linod.Tags.{split_tag, join_tag}
use karpenter_provider_linod.Tags.Split.{split_tag-join_tag}

abbrev pub max_linode_tag_length : ℕ
max_linode_tag_length = 50

-- coreapis.Group + "/nodeclaim"
abbrev pub node_claim_tag_key : Text
node_claim_tag_key = codes "karpenter.sh/nodeclaim"

-- h.Write and h.Sum32 of fnv.New32a, in uint32
fnv1a : ℕ → Text → ℕ
fnv1a h [] = h
fnv1a h (b ∷ s) = fnv1a (bit_xor h b * 16777619 % 2 ^ 32) s

hex_digit : ℕ → ℕ
hex_digit d = if ltb d 10 then b'0' + d else b'a' + (d - 10)

-- the lowest `width` hexadecimal digits, the highest first
hex : ℕ → ℕ → Text
unfolding hex_digit
hex zero n = []
hex (suc width) n = hex_digit (n / 16 ^ width % 16) ∷ hex width n

-- fmt.Sprintf("%08x", h.Sum32())
name_hash : Text → Text
unfolding fnv1a hex
name_hash name = hex 8 (fnv1a 2166136261 name)

abbrev max_value_length : ℕ
max_value_length = max_linode_tag_length - length node_claim_tag_key - 1

-- The tests for a key that leaves no room are kept, as in the source.
unfoldable pub normalize_node_claim_tag_value : Text → Text
unfolding name_hash
normalize_node_claim_tag_value name =
    let hash = name_hash name in
    let prefix_length = max_value_length - length hash - 1 in
    if max_value_length == 0
    then []
    else if leb (length name) max_value_length
    then name
    else if prefix_length == 0
    then (if ltb max_value_length (length hash) then take max_value_length hash else hash)
    else take prefix_length name ++ b'-' ∷ hash

unfoldable pub node_claim_tag : Text → Text
node_claim_tag name = join_tag (node_claim_tag_key, normalize_node_claim_tag_value name)

length-hex : (width n : ℕ) → length (hex width n) ≡ width
unfolding hex
length-hex zero n = refl
length-hex (suc width) n = ap suc (length-hex width n)

length-name_hash : (name : Text) → length (name_hash name) ≡ 8
unfolding name_hash
length-name_hash name = length-hex 8 (fnv1a 2166136261 name)

length-normalize_node_claim_tag_value :
    (name : Text) → length (normalize_node_claim_tag_value name) ≤ 27
unfolding normalize_node_claim_tag_value
length-normalize_node_claim_tag_value name = ground (
  arith,
  length-name_hash name,
  length-append (take 18 name) (b'-' ∷ name_hash name),
  length-take 18 name,
)

normalize_given : (name : Text) → name ≢ [] → normalize_node_claim_tag_value name ≢ []
unfolding normalize_node_claim_tag_value
normalize_given [] h e = h refl
normalize_given (b ∷ name) h e = ground (arith, length-name_hash (b ∷ name))

-- The tag of a node claim with a name never passes Linode's limit of 50 bytes, and it splits into
-- the claim key and the normalized name.
pub node_claim_tag_lem :
    (name : Text)
    → name ≢ []
    → (length (node_claim_tag name) ≤ max_linode_tag_length)
      × (split_tag (node_claim_tag name)
          ≡ some (node_claim_tag_key, normalize_node_claim_tag_value name))
unfolding node_claim_tag
node_claim_tag_lem name h = (
  omega (arith, length-normalize_node_claim_tag_value name),
  split_tag-join_tag node_claim_tag_key (normalize_node_claim_tag_value name)
      (unfold index_rune in refl) (λ e. ground arith) (normalize_given name h),
)

-- ===== src/InstanceTypes/Gpus.antt =====
-- The GPUs of a plan: pkg/providers/instancetype/dynamicresources.go and nvidiagpu.go.
pub mod Order
use karpenter_provider_linod.Base.{
  ℕ, zero, suc, ◌+◌, ◌*◌, Bool, true, false, ◌&&◌, Option, none, some, List, [], ◌∷◌, ◌++◌, leb,
  ◌==◌, if◌then◌else◌, Text, codes, Dict, ℤ, pos, negsuc, itoa,
}
use karpenter_provider_linod.InstanceTypes.Types.{ResourceList, Device, SliceTemplate, LinodeType}

pub record GpuModel : Type 0 where
  pub attributes : Dict Text
  pub capacity : ResourceList

abbrev gpu_type : Text × Text
gpu_type = (codes "type", codes "gpu")

-- resource.MustParse of a number of Mi
abbrev pub mebibytes : ℕ → ℕ
mebibytes n = n * 1048576000

abbrev pub nvidia_ada : GpuModel
nvidia_ada = record {
  attributes =
      gpu_type
      ∷ (codes "productName", codes "NVIDIA RTX 4000 Ada Generation")
      ∷ (codes "brand", codes "NvidiaRTX")
      ∷ (codes "architecture", codes "Ada Lovelace")
      ∷ (codes "cudaComputeCapability", codes "8.9.0")
      ∷ [];
  capacity = (codes "memory", pos (mebibytes 20475)) ∷ [];
}

abbrev pub nvidia_blackwell : GpuModel
nvidia_blackwell = record {
  attributes =
      gpu_type
      ∷ (codes "productName", codes "NVIDIA RTX PRO 6000 Blackwell Server Edition")
      ∷ (codes "brand", codes "Nvidia")
      ∷ (codes "architecture", codes "Blackwell")
      ∷ (codes "cudaComputeCapability", codes "12.0.0")
      ∷ [];
  capacity = (codes "memory", pos (mebibytes 97887)) ∷ [];
}

abbrev unknown_model : GpuModel
unknown_model = record { attributes = gpu_type ∷ []; capacity = [] }

abbrev is_digit : ℕ → Bool
is_digit c = leb b'0' c && leb c b'9'

abbrev is_lower : ℕ → Bool
is_lower c = leb b'a' c && leb c b'z'

-- [a-z]+ up to the end, [a-z]* up to the end
unfoldable pub all_lower : Text → Bool
all_lower [] = true
all_lower (c ∷ s) = is_lower c && all_lower s

abbrev some_lower : Text → Bool
some_lower [] = false
some_lower (c ∷ s) = is_lower c && all_lower s

-- \d*-[a-z]+ up to the end
unfoldable pub digits_then_lower : Text → Bool
unfolding all_lower
digits_then_lower [] = false
digits_then_lower (c ∷ s) = if is_digit c then digits_then_lower s else c == b'-' && some_lower s

-- \d* up to the end
unfoldable pub all_digits : Text → Bool
all_digits [] = true
all_digits (c ∷ s) = is_digit c && all_digits s

-- [1-9] before a rest
abbrev counted : (Text → Bool) → Text → Bool
counted rest [] = false
counted rest (c ∷ s) = leb b'1' c && leb c b'9' && rest s

-- the text after a prefix
unfoldable pub after_prefix : Text → Text → Option Text
after_prefix [] s = some s
after_prefix (b ∷ t) [] = none
after_prefix (b ∷ t) (a ∷ s) = if a == b then after_prefix t s else none

abbrev holds_of : (Text → Bool) → Option Text → Bool
holds_of test none = false
holds_of test (some s) = test s

-- ^g2-gpu-rtx4000a[1-9]\d*-[a-z]+$
unfoldable pub is_ada : Text → Bool
unfolding after_prefix digits_then_lower
is_ada id = holds_of (counted digits_then_lower) (after_prefix (codes "g2-gpu-rtx4000a") id)

-- ^g3-gpu-rtxpro6000-blackwell-[1-9]\d*$
unfoldable pub is_blackwell : Text → Bool
unfolding after_prefix all_digits
is_blackwell id =
    holds_of (counted all_digits) (after_prefix (codes "g3-gpu-rtxpro6000-blackwell-") id)

abbrev pub Metadata : Type 0
Metadata = List ((Text → Bool) × GpuModel)

-- nvidiaGPUMetadata, in one order of its entries
abbrev pub nvidia_gpu_metadata : Metadata
nvidia_gpu_metadata = (is_ada, nvidia_ada) ∷ (is_blackwell, nvidia_blackwell) ∷ []

-- the loop over the patterns
unfoldable pub model_of : Text → Metadata → GpuModel
model_of id [] = unknown_model
model_of id ((matches, model) ∷ rest) = if matches id then model else model_of id rest

-- the devices from number `i` on
unfoldable pub make_devices : GpuModel → ℕ → ℕ → List Device
make_devices model i zero = []
make_devices model i (suc n) =
    record {
      name = codes "gpu-" ++ itoa (pos i);
      attributes = model.attributes;
      capacity = model.capacity;
    }
    ∷ make_devices model (i + 1) n

abbrev templates : Text → GpuModel → ℤ → List SliceTemplate
templates id model (negsuc n) = []
templates id model (pos zero) = []
templates id model (pos (suc n)) =
    record {
      driver = codes "gpu.nvidia.com";
      pool = codes "gpus-" ++ id;
      devices = make_devices model 0 (suc n);
    }
    ∷ []

-- nvidiaGPUResources
unfoldable pub nvidia_gpu_resources : Metadata → LinodeType → List SliceTemplate
unfolding make_devices
nvidia_gpu_resources metadata info = templates info.id (model_of info.id metadata) info.gpus

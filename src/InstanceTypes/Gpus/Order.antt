-- ===== src/InstanceTypes/Gpus/Order.antt =====
-- The GPUs do not depend on the order in which Go walks through nvidiaGPUMetadata.
use karpenter_provider_linod.Base.{
  ℕ, ◌+◌, ◌≡◌, Bool, true, false, List, [], ◌∷◌, arith, ◌==◌, length, Text, zero, suc, refl, ap, ℤ,
  pos, negsuc, codes,
}
use karpenter_provider_linod.InstanceTypes.Types.{SliceTemplate, LinodeType}
use karpenter_provider_linod.InstanceTypes.Gpus.{
  after_prefix, holds_of, nvidia_ada, nvidia_blackwell, digits_then_lower, all_digits, counted,
  is_ada, is_blackwell, nvidia_gpu_metadata, model_of, make_devices, templates,
  nvidia_gpu_resources, GpuModel,
}

after_prefix-disjoint :
    (b c : ℕ) (s t id : Text) (f g : Text → Bool)
    → (b == c) ≡ false
    → holds_of f (after_prefix (b'g' ∷ b ∷ s) id) ≡ true
    → holds_of g (after_prefix (b'g' ∷ c ∷ t) id) ≡ false
unfolding after_prefix
after_prefix-disjoint b c s t [] f g ne h = ground arith
after_prefix-disjoint b c s t (x ∷ []) f g ne h = ground arith
after_prefix-disjoint b c s t (x ∷ y ∷ id) f g ne h = ground arith

is_blackwell-ada : (id : Text) → is_ada id ≡ true → is_blackwell id ≡ false
unfolding is_ada is_blackwell
is_blackwell-ada id h =
    after_prefix-disjoint b'2' b'3' (codes "-gpu-rtx4000a") (codes "-gpu-rtxpro6000-blackwell-") id
      (counted digits_then_lower) (counted all_digits) refl h

model_of-swap :
    (id : Text) (f g : Text → Bool) (a b : GpuModel)
    → (f id ≡ true → g id ≡ false)
    → model_of id ((f, a) ∷ (g, b) ∷ []) ≡ model_of id ((g, b) ∷ (f, a) ∷ [])
unfolding model_of
model_of-swap id f g a b apart = ground (arith, apart)

-- the sum over the templates
abbrev pub device_count : List SliceTemplate → ℕ
device_count [] = 0
device_count (t ∷ ts) = length t.devices + device_count ts

length-make_devices : (model : GpuModel) (i n : ℕ) → length (make_devices model i n) ≡ n
unfolding make_devices
length-make_devices model i zero = refl
length-make_devices model i (suc n) = ap suc (length-make_devices model (i + 1) n)

-- the number of GPUs that the plan reports, none if it is negative
abbrev pub gpu_count : ℤ → ℕ
gpu_count (pos n) = n
gpu_count (negsuc n) = 0

device_count-templates :
    (id : Text) (model : GpuModel) (gpus : ℤ)
    → device_count (templates id model gpus) ≡ gpu_count gpus
device_count-templates id model (negsuc n) = refl
device_count-templates id model (pos zero) = refl
device_count-templates id model (pos (suc n)) = omega (arith, length-make_devices model 0 (suc n))

-- Walking through the patterns in the other order finds the same GPUs, and there is one device for
-- each GPU that the plan reports, none if that number is not positive.
pub nvidia_gpu_resources_lem :
    (info : LinodeType)
    → (nvidia_gpu_resources nvidia_gpu_metadata info
        ≡ nvidia_gpu_resources ((is_blackwell, nvidia_blackwell) ∷ (is_ada, nvidia_ada) ∷ []) info)
      × (device_count (nvidia_gpu_resources nvidia_gpu_metadata info) ≡ gpu_count info.gpus)
unfolding nvidia_gpu_resources
nvidia_gpu_resources_lem info = (
  ap (λ model. templates info.id model info.gpus)
      (model_of-swap info.id is_ada is_blackwell nvidia_ada nvidia_blackwell
        (is_blackwell-ada info.id)),
  device_count-templates info.id _ info.gpus,
)

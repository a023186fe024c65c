-- ===== src/Application/Batch.antt =====
-- crates/deskkin-application/src/lib.rs: identities that carry their feature, and batches of at most
-- one effect for each feature.
use deskkin.Prelude.{
  ℕ, ◌+◌, Bool, true, false, Option, none, some, List, get_elem?, set, replicate, ◌==◌,
  if◌then◌else◌,
}
use deskkin.Prelude.Results.{Result, ok, err}
use deskkin.ApplicationCore.{LocalEffectId}
use deskkin.Features.Availability
use deskkin.Features.Notice

abbrev pub feature_count : ℕ
feature_count = 2

pub data FeatureId : Type 0 where
  availability synthetic_notice : FeatureId

-- `==` of the derived `PartialEq`
abbrev pub same_feature : FeatureId → FeatureId → Bool
same_feature availability availability = true
same_feature synthetic_notice synthetic_notice = true
same_feature _ _ = false

pub record ApplicationEffectId : Type 0 where
  pub feature : FeatureId
  pub local : LocalEffectId

pub data EffectRequest : Type 0 where
  availability : Availability.EffectRequest → EffectRequest
  synthetic_notice : Notice.EffectRequest → EffectRequest

pub record Effect : Type 0 where
  pub id : ApplicationEffectId
  pub request : EffectRequest

pub data TransitionError : Type 0 where
  already_started not_started : TransitionError
  availability_rejected : Availability.TransitionError → TransitionError
  synthetic_notice_rejected : Notice.TransitionError → TransitionError
  effect_feature_mismatch : FeatureId → FeatureId → TransitionError
  effect_identity_mismatch : LocalEffectId → LocalEffectId → TransitionError
  unexpected_effect_input effect_batch_exhausted : TransitionError

pub record EffectBatch : Type 0 where
  pub items : List (Option Effect)
  pub len : ℕ

abbrev pub new : EffectBatch
new = record { items = replicate feature_count none; len = 0 }

-- `.copied().flatten()`
abbrev flatten : Option (Option Effect) → Option Effect
flatten none = none
flatten (some item) = item

abbrev pub get : EffectBatch → ℕ → Option Effect
get batch index = flatten (get_elem? batch.items index)

abbrev pub push : EffectBatch → Effect → Result TransitionError EffectBatch
push batch effect =
    if batch.len == feature_count
    then err effect_batch_exhausted
    else ok (record { items = set batch.items batch.len (some effect); len = batch.len + 1 })

-- `if let Some(effect) = … { effects.push(wrap(effect))?; }`
abbrev pub push_some :
    {E : Type 0} → EffectBatch → (E → Effect) → Option E → Result TransitionError EffectBatch
push_some batch wrap none = ok batch
push_some batch wrap (some effect) = push batch (wrap effect)

abbrev pub wrap_availability : Availability.Effect → Effect
wrap_availability effect = record {
  id = record { feature = FeatureId.availability; local = effect.id };
  request = EffectRequest.availability effect.request;
}

abbrev pub wrap_notice : Notice.Effect → Effect
wrap_notice effect = record {
  id = record { feature = FeatureId.synthetic_notice; local = effect.id };
  request = EffectRequest.synthetic_notice effect.request;
}

-- ===== src/Api/Controller/Decided.antt =====
-- What `submit` decides.
use my_tiny_network_library.Base.{
  ℕ, ◌≡◌, ◌≢◌, inl, inr, refl, Bool, true, false, not, ◌||◌, Option, none, some, Bool-cases, leb,
  length, Bytes,
}
use my_tiny_network_library.Inference.Types.{InferenceRequest}
use my_tiny_network_library.Inference.Registry.{has_model, resolve}
use my_tiny_network_library.Inference.Scheduler.{
  Scheduler, accepted, Admission, refused, admitted, admit, admission,
}

-- A request is let in with its completion, or refused with a result that says so.
abbrev pub Decided :
    {Handle Real Callback : Type 0}
    → InferenceRequest Real
    → Option Callback
    → Admission Handle Real Callback
    → Type 0
Decided r completion (admitted task) =
    (task.completion ≡ completion)
    × (task.request ≡ record r { model_name = task.request.model_name })
Decided r completion (refused result) = result ≢ accepted

module _ {Handle Real Callback Metrics : Type 0} where
  admit-Decided :
      (r : InferenceRequest Real) (completion : Option Callback) (now : ℕ)
      (found : Bytes × Option Handle) (s : Scheduler Handle Real Callback Metrics)
      → Decided r completion (admit r completion now found s)
  unfolding admit
  admit-Decided r completion now (name, none) s = λ e. cc e
  admit-Decided r completion now (name, some backend) s =
      elim (Bool-cases (leb s.queue_capacity (length s.tasks))) [
        | inl e ↦ rw e (λ k. cc k)
        | inr e ↦ rw e (refl, refl)
      ]

  pub admission-Decided :
      (r : InferenceRequest Real) (completion : Option Callback) (now : ℕ)
      (s : Scheduler Handle Real Callback Metrics)
      → Decided r completion (admission r completion now s)
  unfolding admission
  admission-Decided r completion now s = go _ _ refl refl
    where
      go :
          (closed unknown : Bool)
          → (not s.running || s.stopping) ≡ closed
          → (not (has_model s.registry r.model_name)) ≡ unknown
          → Decided r completion (admission r completion now s)
      go true unknown e k = rw e (λ h. cc h)
      go false true e k = rw (e, k) (λ h. cc h)
      go false false e k =
          rw (e, k) (admit-Decided r completion now (resolve s.registry r.model_name r.backend) s)

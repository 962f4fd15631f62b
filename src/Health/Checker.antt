-- ===== src/Health/Checker.antt =====
-- src/health/checker.hpp and checker.cpp. What a backend answers comes from the
-- network and is an argument.
pub mod Monitoring
pub mod Shown
pub mod Tests
use kvmux.Prelude.{
  ℕ, ◌≡◌, refl, ap, inl, inr, Bool, true, false, not, ◌&&◌, [], ◌∷◌, ◌++◌, arith, ◌==◌,
  if◌then◌else◌, ==_iff, Bool-cases, Bytes, codes,
}

pub data HealthState : Type 0 where
  healthy not_ready dead : HealthState

pub data BackendType : Type 0 where
  vllm llamacpp ollama : BackendType

pub record ProbeResult : Type 0 where
  pub connected : Bool
  pub http_status : ℕ
  pub body : Bytes

unfoldable pub evaluate_health_endpoint : ProbeResult → HealthState
evaluate_health_endpoint health =
    if not health.connected
    then dead
    else if health.http_status == 200
    then healthy
    else if health.http_status == 503
    then not_ready
    else dead

-- Whether a text begins with another, and whether `find` finds one.
unfoldable pub starts_with : Bytes → Bytes → Bool
starts_with [] text = true
starts_with (c ∷ cs) [] = false
starts_with (c ∷ cs) (d ∷ ds) = if c == d then starts_with cs ds else false

unfoldable pub found_in : Bytes → Bytes → Bool
unfolding starts_with
found_in needle [] = starts_with needle []
found_in needle (d ∷ ds) = if starts_with needle (d ∷ ds) then true else found_in needle ds

abbrev pub banner : Bytes
banner = codes "Ollama is running"

unfoldable pub evaluate_ollama : ProbeResult → ProbeResult → HealthState
evaluate_ollama liveness readiness =
    let live = liveness.connected && liveness.http_status == 200 && found_in banner liveness.body in
    if not live
    then dead
    else if readiness.connected && readiness.http_status == 200
    then healthy
    else not_ready

starts_with-append :
    (needle text : Bytes)
    → starts_with needle text ≡ true
    → (rest : Bytes) × (text ≡ needle ++ rest)
unfolding starts_with
starts_with-append [] text h = (text, refl)
starts_with-append (c ∷ cs) [] h = cc
starts_with-append (c ∷ cs) (d ∷ ds) h = elim (Bool-cases (c == d)) [
  | inl e ↦
      let (rest, split) = starts_with-append cs ds (rw e at h) in
      (rest, cc ((==_iff c d).0 e, split))
  | inr e ↦ cc (rw e at h)
]

found_in-split :
    (needle text : Bytes)
    → found_in needle text ≡ true
    → (before : Bytes) × (after : Bytes) × (text ≡ before ++ (needle ++ after))
unfolding found_in
found_in-split needle [] h = let (rest, e) = starts_with-append needle [] h in ([], rest, e)
found_in-split needle (d ∷ ds) h = elim (Bool-cases (starts_with needle (d ∷ ds))) [
  | inl e ↦ let (rest, split) = starts_with-append needle (d ∷ ds) e in ([], rest, split)
  | inr e ↦
      let (before, after, split) = found_in-split needle ds (rw e at h) in
      (d ∷ before, after, ap (◌∷◌ d) split)
]

pub evaluate_health_endpoint-healthy :
    (health : ProbeResult)
    → evaluate_health_endpoint health ≡ healthy
    → (health.connected ≡ true) × (health.http_status ≡ 200)
unfolding evaluate_health_endpoint
evaluate_health_endpoint-healthy health h = (ground arith, ground arith)

-- Ollama is taken for healthy only if the first request answered 200 with the banner somewhere in its body,
-- and the second answered 200.
pub evaluate_ollama-healthy :
    (liveness readiness : ProbeResult)
    → evaluate_ollama liveness readiness ≡ healthy
    → (liveness.connected ≡ true)
      × (liveness.http_status ≡ 200)
      × (readiness.connected ≡ true)
      × (readiness.http_status ≡ 200)
      × (before : Bytes) × (after : Bytes) × (liveness.body ≡ before ++ (banner ++ after))
unfolding evaluate_ollama
evaluate_ollama-healthy liveness readiness h =
    let found : found_in banner liveness.body ≡ true = ground arith in
    let (before, after, split) = found_in-split banner liveness.body found in
    (ground arith, ground arith, ground arith, ground arith, before, after, split)

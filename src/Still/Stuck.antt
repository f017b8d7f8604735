-- ===== src/Still/Stuck.antt =====
-- What a driver of drivers/still/canon-r5-still.c does after a picture was taken.
use canon_r.Prelude.{◌⊎◌, ◌≡◌, true, false, List, map, arith, ℤ, pos, negsuc, failed, success}
use canon_r.Device.{Core}
use canon_r.Ptp.{TransportOps}
use canon_r.Still.{StillSystem}
use canon_r.Ptp.Transport.{IsTransport}
use canon_r.Ptp.Requests.{SessionInv}
use canon_r.Still.Serve.{StillRequest, Busy, Idle, asks, any_asks, refusal}

pub not_failed : (z : ℤ) → failed z ≡ false → z ≡ success
not_failed (pos n) h = ground arith
not_failed (negsuc n) h = cc

module _ {E : Type 0} where
  -- The driver is as busy, the device and the camera as before, and the answer is `z`.
  abbrev Refused : Core E → ℤ → ℤ → StillSystem E → Type 0
  Refused c z ret s' = Busy s'.still × Idle s'.still × (s'.core ≡ c) × (ret ≡ z)

module _ {E : Type 0} {Good : E → Type 0} (ops : TransportOps E) (t : IsTransport Good ops) where
  -- A request was refused in `s`.
  abbrev Answered : StillSystem E → StillRequest → ℤ → StillSystem E → Type 0
  Answered s q ret s' =
      Busy s'.still
      × Idle s'.still
      × SessionInv s'.core.dev
      × Good s'.core.env
      × ((asks q ≡ true) ⊎ (s'.core ≡ s.core))
      × (ret ≡ refusal q)

  -- All requests were refused from `s` on.
  abbrev pub AllAnswered : StillSystem E → List StillRequest → List ℤ → StillSystem E → Type 0
  AllAnswered s qs rets s' =
      Busy s'.still
      × Idle s'.still
      × SessionInv s'.core.dev
      × Good s'.core.env
      × ((any_asks qs ≡ true) ⊎ (s'.core ≡ s.core))
      × (rets ≡ map refusal qs)

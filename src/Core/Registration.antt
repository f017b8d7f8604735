-- ===== src/Core/Registration.antt =====
-- Who is registered with a device: its transport, and the driver modules.
use canon_r.Prelude.{
  ◌≡◌, ◌≢◌, refl, false, success, eexist, done, Ptr, null, valid, is_null, Bool-cases,
  if◌then◌else◌, ◌>>=◌, inl, inr,
}
use canon_r.Device.{Core, Drivers, DeviceState, on_dev}
use canon_r.Core.{
  Driver, video, still, audio, storage, control, power, input, lens, display, wireless, set_priv,
  get_priv, register_driver, unregister_driver, get_driver, register_transport, set_state,
  get_state,
}

module _ {E : Type 0} where
  -- With the mutex free, registering a transport succeeds exactly when none is registered. A
  -- second one is refused with -EEXIST and changes nothing, so the first stays; the mutex is
  -- free afterwards.
  pub register_transport-cases :
      (c : Core E)
      → c.dev.state_lock ≡ false
      → register_transport valid valid c ≡ (
          if is_null c.dev.transport_ops
          then done success (on_dev (λ d. record d { transport_ops = valid }) c)
          else done eexist c)
  unfolding register_transport
  register_transport-cases c h = elim (Bool-cases (is_null c.dev.transport_ops)) [
    | inl e ↦ rw (h, e) refl
    | inr e ↦ rw (h, e) refl
  ]

  -- With the mutex free, a state that is set is the state that is read then, and nothing else
  -- has changed.
  pub get_state-set_state :
      (c : Core E) (s : DeviceState)
      → c.dev.state_lock ≡ false
      → (set_state valid s >>= λ _. get_state valid) c
        ≡ done s (on_dev (λ d. record d { state = s }) c)
  unfolding set_state get_state
  get_state-set_state c s h = rw h refl

get_priv-set_priv_self : (k : Driver) (p : Ptr) (d : Drivers) → get_priv k (set_priv k p d) ≡ p
unfolding get_priv set_priv
get_priv-set_priv_self video p d = refl
get_priv-set_priv_self still p d = refl
get_priv-set_priv_self audio p d = refl
get_priv-set_priv_self storage p d = refl
get_priv-set_priv_self control p d = refl
get_priv-set_priv_self power p d = refl
get_priv-set_priv_self input p d = refl
get_priv-set_priv_self lens p d = refl
get_priv-set_priv_self display p d = refl
get_priv-set_priv_self wireless p d = refl

get_priv-set_priv_ne :
    (j k : Driver) (p : Ptr) (d : Drivers) → j ≢ k → get_priv j (set_priv k p d) ≡ get_priv j d
unfolding get_priv set_priv
get_priv-set_priv_ne video video p d h = absurd (h refl)
get_priv-set_priv_ne still still p d h = absurd (h refl)
get_priv-set_priv_ne audio audio p d h = absurd (h refl)
get_priv-set_priv_ne storage storage p d h = absurd (h refl)
get_priv-set_priv_ne control control p d h = absurd (h refl)
get_priv-set_priv_ne power power p d h = absurd (h refl)
get_priv-set_priv_ne input input p d h = absurd (h refl)
get_priv-set_priv_ne lens lens p d h = absurd (h refl)
get_priv-set_priv_ne display display p d h = absurd (h refl)
get_priv-set_priv_ne wireless wireless p d h = absurd (h refl)
get_priv-set_priv_ne _ _ p d h = refl

module _ {E : Type 0} where
  abbrev pub with_priv : Driver → Ptr → Core E → Core E
  with_priv k p = on_dev (λ d. record d { drivers = set_priv k p (d.drivers) })

  -- What a driver module registers is what is read back for it, and what is read back for every
  -- other module is as before. After it has unregistered, NULL is read.
  pub get_driver-register_driver :
      (k : Driver) (p : Ptr) (c : Core E)
      → ((register_driver k valid p >>= λ _. get_driver k valid) c ≡ done p (with_priv k p c))
        × ((j : Driver)
            → j ≢ k
            → (register_driver k valid p >>= λ _. get_driver j valid) c
              ≡ done (get_priv j c.dev.drivers) (with_priv k p c))
        × ((unregister_driver k valid >>= λ _. get_driver k valid) c
            ≡ done null (with_priv k null c))
  unfolding register_driver unregister_driver get_driver
  get_driver-register_driver k p c = (
    rw (get_priv-set_priv_self k p c.dev.drivers) refl,
    λ j h. rw (get_priv-set_priv_ne j k p c.dev.drivers h) refl,
    rw (get_priv-set_priv_self k null c.dev.drivers) refl,
  )

-- ===== src/Ptp/Serve.antt =====
-- The operations of the PTP layer as requests, and what holds after any sequence of them.
use canon_r.Prelude.{
  ℕ, ◌%◌, ◌^◌, ◌≤◌, ◌≡◌, ◌≢◌, refl, ap, ◌∙◌, ◌⊎◌, inl, inr, true, false, List, [], ◌∷◌, Option,
  none, some, length, replicate, arith, ltb, ◌==◌, ◌||◌, ℤ, to_int, failed, success, M, Ends,
  Ends-bind, Ends-mono, if-Ends, null, valid, Bool-cases, ◌>>=◌, return, if◌then◌else◌, einval,
}
use canon_r.Wire.{Byte}
use canon_r.Device.{Core, Device}
use canon_r.Ptp.{TransportOps}
use canon_r.Ptp.Transport.{IsTransport}
use canon_r.Ptp.Command.{Exchanged, Covers, ptp_command-Exchanged}
use canon_r.Ptp.Session.{
  not_ok, simple_command, checked_command, ptp_open_session, ptp_close_session,
}
use canon_r.Ptp.Camera.{
  basic_info, ptp_get_device_info, ptp_initiate_release_control, ptp_terminate_release_control,
  ptp_liveview_start, ptp_liveview_stop, ptp_get_liveview_frame, ptp_capture_image, ptp_start_movie,
  ptp_stop_movie, ptp_get_property, ptp_set_property, op_set_property, op_get_property,
  op_get_liveview, op_get_device_info,
}
use canon_r.Ptp.Still.{op_autofocus, ptp_capture_single, ptp_capture_burst, ptp_autofocus}
use canon_r.Ptp.Requests.{
  SessionInv, Framed, Framed-Inv, Exchanged-Framed, simple_command-Ends, Checked,
  checked_command-Ends,
}
use canon_r.Ptp.Lifecycle.{Session, Session-Inv, ptp_open_session-Ends, ptp_close_session-Ends}

-- A call that another module may make, with its pointers valid.
pub data Request : Type 0 where
  open_session close_session device_info initiate_release terminate_release : Request
  liveview_start liveview_stop liveview_frame capture_image movie_start movie_stop : Request
  get_property : ℕ → ℕ → Request
  set_property : ℕ → (value : List Byte) (size : ℕ) → size ≤ length value → Request
  capture_single autofocus : Request
  capture_burst : ℕ → Request

module _ {E : Type 0} where
  abbrev status : {A : Type 0} → M (Core E) (ℤ × A) → M (Core E) ℤ
  status m = do r ← m; return r.0

  pub serve : TransportOps E → Request → M (Core E) ℤ
  serve ops open_session = ptp_open_session ops valid
  serve ops close_session = ptp_close_session ops valid
  serve ops device_info = status (ptp_get_device_info ops valid valid)
  serve ops initiate_release = ptp_initiate_release_control ops valid
  serve ops terminate_release = ptp_terminate_release_control ops valid
  serve ops liveview_start = ptp_liveview_start ops valid
  serve ops liveview_stop = ptp_liveview_stop ops valid
  serve ops liveview_frame = status (ptp_get_liveview_frame ops valid valid valid)
  serve ops capture_image = ptp_capture_image ops valid
  serve ops movie_start = ptp_start_movie ops valid
  serve ops movie_stop = ptp_stop_movie ops valid
  serve ops (get_property p size) = status (ptp_get_property ops valid p valid size)
  serve ops (set_property p value size h) = ptp_set_property ops valid p (some value) size
  serve ops capture_single = ptp_capture_single ops valid
  serve ops autofocus = ptp_autofocus ops valid
  serve ops (capture_burst n) = ptp_capture_burst ops valid n

  pub serve_all : TransportOps E → List Request → M (Core E) (Unit {0})
  serve_all ops [] = return tt
  serve_all ops (q ∷ qs) = do ret ← serve ops q; serve_all ops qs

Covers-to_int :
    (value : List Byte) (size : ℕ) → size ≤ length value → Covers (some value) (to_int size)
unfolding to_int
Covers-to_int value size h = elim (Bool-cases (ltb (size % 2 ^ 32) (2 ^ 31))) [
  | inl e ↦ rw e (omega arith)
  | inr e ↦ rw e tt
]

-- What a request may do to the device: open the session, close it, or only move the counter.
abbrev Moves : {E : Type 0} → (E → Type 0) → Core E → Core E → Type 0
Moves Good c c' = Framed Good c c' ⊎ (Session Good 1 true c c' ⊎ Session Good 0 false c c')

-- The device of `c` but for its PTP part.
abbrev pub SameOutside : {E : Type 0} → Core E → Core E → Type 0
SameOutside c c' = c'.dev ≡ record (c.dev) { ptp = c'.dev.ptp }

-- What holds between two operations: of the device, and of what lies behind the transport.
abbrev pub Settled : {E : Type 0} → (E → Type 0) → Core E → Type 0
Settled Good c = SessionInv c.dev × Good c.env

module _ {E : Type 0} {Good : E → Type 0} (ops : TransportOps E) (t : IsTransport Good ops) where
  -- An operation that makes one command and then answers without touching the device.
  after_command :
      {A : Type 0} (code : ℕ) (ps : List ℕ) (f : ℤ × Option ℕ → M (Core E) A) (c : Core E)
      → Settled Good c
      → length ps ≤ 5
      → ((r : ℤ × Option ℕ) (c' : Core E)
          → Framed Good c c'
          → Ends (λ _ c''. Framed Good c c'') (f r c'))
      → Ends (λ _ c'. Framed Good c c') ((simple_command ops code ps >>= f) c)
  after_command code ps f c v h pure =
      Ends-bind (Exchanged Good code c) (λ _ c'. Framed Good c c') _ f
        (simple_command-Ends ops t code ps c v.0 v.1 h)
        λ r c' x. pure r c' (Exchanged-Framed Good code c r c' v.0 x)

  -- The branch on the status that such an operation ends with.
  after_either :
      {A : Type 0} (code : ℕ) (ps : List ℕ) (p q : ℤ × Option ℕ → A) (c : Core E)
      → Settled Good c
      → length ps ≤ 5
      → Ends
          (λ _ c'. Framed Good c c')
          ((do r ← simple_command ops code ps; if failed r.0 then return (p r) else return (q r)) c)
  after_either code ps p q c v h = after_command code ps _ c v h λ r c' k.
      if-Ends (λ _ c''. Framed Good c c'') (failed r.0) (return (p r)) (return (q r)) c' k k

  checked-Framed :
      (code : ℕ) (ps : List ℕ) (c : Core E)
      → Settled Good c
      → length ps ≤ 5
      → Ends (λ _ c'. Framed Good c c') (checked_command ops code ps c)
  checked-Framed code ps c v h =
      Ends-mono (Checked Good code c) (λ _ c'. Framed Good c c') _
        (checked_command-Ends ops t code ps c v.0 v.1 h) (λ _ _ p. p.0)

  status-Framed :
      {A : Type 0} (m : M (Core E) (ℤ × A)) (c : Core E)
      → Ends (λ _ c'. Framed Good c c') (m c)
      → Ends (λ _ c'. Framed Good c c') (status m c)
  status-Framed m c h =
      Ends-bind (λ _ c'. Framed Good c c') (λ _ c'. Framed Good c c') (m c) _ h (λ _ _ k. k)

  -- Every operation but the two of the session is `Framed`.
  serve-Framed :
      (q : Request) (c : Core E)
      → Settled Good c
      → (q ≢ open_session) × (q ≢ close_session)
      → Ends (λ _ c'. Framed Good c c') (serve ops q c)
  unfolding serve ptp_get_device_info ptp_initiate_release_control ptp_terminate_release_control
      ptp_liveview_start ptp_liveview_stop ptp_get_liveview_frame ptp_capture_image ptp_start_movie
      ptp_stop_movie ptp_get_property ptp_set_property ptp_capture_single ptp_capture_burst
      ptp_autofocus
  serve-Framed open_session c v h = absurd (h.0 refl)
  serve-Framed close_session c v h = absurd (h.1 refl)
  serve-Framed device_info c v h = status-Framed (ptp_get_device_info ops valid valid) c (
      after_either op_get_device_info [] (λ r. (r.0, none)) (λ _. (success, some basic_info)) c v
        (omega arith))
  serve-Framed initiate_release c v h = checked-Framed _ [] c v (omega arith)
  serve-Framed terminate_release c v h = after_command _ [] _ c v (omega arith) λ r c' k. k
  serve-Framed liveview_start c v h = checked-Framed _ [] c v (omega arith)
  serve-Framed liveview_stop c v h = after_command _ [] _ c v (omega arith) λ r c' k. k
  serve-Framed liveview_frame c v h =
      status-Framed (ptp_get_liveview_frame ops valid valid valid) c (
        after_either op_get_liveview [] (λ r. (r.0, none)) (λ _. (success, some (null, 0))) c v
          (omega arith))
  serve-Framed capture_image c v h = checked-Framed _ [] c v (omega arith)
  serve-Framed movie_start c v h = checked-Framed _ [] c v (omega arith)
  serve-Framed movie_stop c v h = after_command _ [] _ c v (omega arith) λ r c' k. k
  serve-Framed (get_property p size) c v h =
      status-Framed (ptp_get_property ops valid p valid size) c (
        after_either op_get_property (p ∷ []) (λ r. (r.0, none))
          (λ _. (success, some (replicate size 0))) c v (omega arith))
  serve-Framed (set_property p value size hs) c v h =
      Ends-bind (Exchanged Good op_set_property c) (λ _ c'. Framed Good c c') _ _
        (ptp_command-Exchanged ops t c op_set_property (p ∷ []) (some value) (to_int size) v.1
          v.0.idle (omega arith) (Covers-to_int value size hs))
        λ r c' x.
          let k = Exchanged-Framed Good op_set_property c r c' v.0 x in
          if-Ends (λ _ c''. Framed Good c c'') (failed r.0) (return r.0) (return success) c' k k
  serve-Framed capture_single c v h = checked-Framed _ [] c v (omega arith)
  serve-Framed autofocus c v h = after_command op_autofocus [] _ c v (omega arith) λ r c' k.
      if-Ends (λ _ c''. Framed Good c c'') (failed r.0) _ _ c' k
        (if-Ends (λ _ c''. Framed Good c c'') (not_ok r.1) _ _ c' k k)
  serve-Framed (capture_burst n) c v h =
      if-Ends (λ _ c'. Framed Good c c') (n == 0 || ltb 999 n) (return einval) _ c
        (record { frame = refl; counter = v.0.counter; alive = v.1 })
        (checked-Framed _ (n ∷ []) c v (omega arith))

  serve-Moves :
      (q : Request) (c : Core E) → Settled Good c → Ends (λ _ c'. Moves Good c c') (serve ops q c)
  unfolding serve
  serve-Moves open_session c v =
      Ends-mono
        (λ ret c'.
          ((ret ≡ success) × Session Good 1 true c c') ⊎ ((failed ret ≡ true) × Framed Good c c'))
        (λ _ c'. Moves Good c c') _ (ptp_open_session-Ends ops t c v.0 v.1) opened_or_not
    where
      opened_or_not :
          (ret : ℤ) (c' : Core E)
          → (((ret ≡ success) × Session Good 1 true c c')
              ⊎ ((failed ret ≡ true) × Framed Good c c'))
          → Moves Good c c'
      opened_or_not ret c' (inl p) = inr (inl p.1)
      opened_or_not ret c' (inr p) = inl p.1
  serve-Moves close_session c v =
      Ends-mono (λ ret c'. (ret ≡ success) × Session Good 0 false c c') (λ _ c'. Moves Good c c') _
        (ptp_close_session-Ends ops t c v.0 v.1) (λ _ _ p. inr (inr p.1))
  serve-Moves q c v =
      Ends-mono (λ _ c'. Framed Good c c') (λ _ c'. Moves Good c c') _
        (serve-Framed q c v (λ e. cc, λ e. cc)) (λ _ _ k. inl k)

  Moves-Settled :
      (c c' : Core E) → Settled Good c → Moves Good c c' → Settled Good c' × SameOutside c c'
  Moves-Settled c c' v (inl f) = ((Framed-Inv Good c c' v.0 f, f.alive), ground (arith, f.frame))
  Moves-Settled c c' v (inr (inl s)) =
      ((Session-Inv Good c c' true v.0 s, s.2), ground (arith, s.0))
  Moves-Settled c c' v (inr (inr s)) =
      ((Session-Inv Good c c' false v.0 s, s.2), ground (arith, s.0))

  -- Over a transport as the layer relies on, and from a settled device, any sequence of PTP
  -- operations runs to its end without a deadlock or a read past an object. It leaves the
  -- device settled (the mutex free, the session's number and its flag in step, the counter a
  -- u32) and touches nothing of it outside its PTP part.
  pub serve_all-Settled :
      (qs : List Request) (c : Core E)
      → Settled Good c
      → Ends (λ _ c'. Settled Good c' × SameOutside c c') (serve_all ops qs c)
  unfolding serve_all
  serve_all-Settled [] c v = (v, refl)
  serve_all-Settled (q ∷ qs) c v =
      Ends-bind (λ _ c'. Moves Good c c') (λ _ c'. Settled Good c' × SameOutside c c') _ _
        (serve-Moves q c v)
        λ ret c1 m.
          let (v1, o1) = Moves-Settled c c1 v m in
          Ends-mono (λ _ c'. Settled Good c' × SameOutside c1 c')
            (λ _ c'. Settled Good c' × SameOutside c c') _ (serve_all-Settled qs c1 v1)
            (λ _ c2 p.
              (p.0, p.1 ∙ ap {A = Device} {B = Device} (λ d. record d { ptp = c2.dev.ptp }) o1))

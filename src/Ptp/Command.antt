-- ===== src/Ptp/Command.antt =====
-- What `canon_r5_ptp_command` promises its callers.
use canon_r.Prelude.{
  ℕ, zero, suc, ◌+◌, ◌%◌, ◌^◌, ◌≤◌, ◌≡◌, refl, ap, ◌⊎◌, inl, inr, true, false, List, [], Option,
  none, some, length, arith, ltb, ◌==◌, ℤ, pos, negsuc, failed, success, enotconn, eproto, M,
  if◌then◌else◌, Outcome, done, fault, Ends, Ends-bind, Ends-mono, if-Ends, valid, Bool-cases,
}
use canon_r.Wire.{
  Byte, sizeof_container, sizeof_header, container_response, container_data, container_command,
  type_of, trans_id_of, encode, build_ptp_container,
}
use canon_r.Wire.RoundTrip.{length-encode, params-build, length-encode-build, length-build}
use canon_r.Device.{Core, Device, set_ptp}
use canon_r.Ptp.Transport.{IsTransport, OnDevice, send-Ends, receive-Ends}
use canon_r.Ptp.{
  leave, data_header, transact, TransportOps, send_data_phase, check_response, ptp_command,
  op_open_session, rc_ok, next_transaction,
}

-- The buffer of the data phase holds as many bytes as the caller says.
abbrev pub Covers : Option (List Byte) → ℤ → Type 0
Covers none n = Unit {0}
Covers (some b) (pos n) = n ≤ length b
Covers (some b) (negsuc n) = Unit {0}

pub data_header-size :
    (code trans_id n : ℕ) → sizeof_container ≤ length (encode (data_header code trans_id n))
unfolding data_header
data_header-size code trans_id n = omega (
  arith,
  length-encode (data_header code trans_id n) [] (params-build container_data code trans_id []),
)

abbrev unlocked : Device → Device
unlocked d = record d { ptp = record (d.ptp) { lock = false } }

module _ {E : Type 0} (Good : E → Type 0) where
  -- The end of a transaction that held the lock of `d`.
  record Left (d : Device) (r : ℤ × Option ℕ) (c' : Core E) : Type 0 where
    same : c'.dev ≡ unlocked d
    alive : Good c'.env
    sound : failed r.0 ≡ false → r ≡ (success, some rc_ok)

  leave-Ends :
      (d : Device) (ret : ℤ) (c : Core E)
      → OnDevice Good d c
      → failed ret ≡ true
      → Ends (Left d) (leave ret c)
  leave-Ends d ret c k h = record { same = ap unlocked k.0; alive = k.1; sound = λ f. cc }

  check-Ends :
      (d : Device) (trans_id : ℕ) (resp : List ℕ) (c : Core E)
      → OnDevice Good d c
      → Ends (Left d) (check_response trans_id resp c)
  unfolding check_response
  check-Ends d trans_id resp c k = elim (Bool-cases (ltb (length resp) sizeof_header)) [
    | inl a ↦ rw a (leave-Ends d eproto c k refl)
    | inr a ↦ elim (Bool-cases (type_of resp == container_response)) [
      | inr b ↦ rw (a, b) (leave-Ends d eproto c k refl)
      | inl b ↦ elim (Bool-cases (trans_id_of resp == trans_id)) [
        | inr x ↦ rw (a, b, x) (leave-Ends d eproto c k refl)
        | inl x ↦
            rw (a, b, x) (record { same = ap unlocked k.0; alive = k.1; sound = ground arith })
      ]
    ]
  ]

  -- What a command that started in `c` ends with.
  pub record Exchanged (code : ℕ) (c : Core E) (r : ℤ × Option ℕ) (c' : Core E) : Type 0 where
    -- The device is as it was but for the transaction counter; so the mutex is free again.
    pub frame :
        c'.dev
        ≡ record (c.dev) { ptp = record (c.dev.ptp) { transaction_id = c'.dev.ptp.transaction_id } }
    pub alive : Good c'.env
    pub counted :
        (c'.dev.ptp.transaction_id ≡ c.dev.ptp.transaction_id)
        ⊎ (c'.dev.ptp.transaction_id ≡ (c.dev.ptp.transaction_id + 1) % 2 ^ 32)
    -- Success is reported only for a command that was allowed and that the camera answered by OK.
    pub allowed :
        failed r.0 ≡ false → (c.dev.ptp.session_open ≡ true) ⊎ ((code == op_open_session) ≡ true)
    pub answered : failed r.0 ≡ false → r ≡ (success, some rc_ok)

  Left-Exchanged :
      (code : ℕ) (c : Core E)
      → c.dev.ptp.lock ≡ false
      → (c.dev.ptp.session_open ≡ true) ⊎ ((code == op_open_session) ≡ true)
      → (r : ℤ × Option ℕ) (c' : Core E)
      → Left (next_transaction (set_ptp (record (c.dev.ptp) { lock = true }) c)).dev r c'
      → Exchanged code c r c'
  Left-Exchanged code c hl ha r c' l = record {
    frame = rw l.same (rw (← hl) refl);
    alive = l.alive;
    counted = inr (rw l.same refl);
    allowed = λ _. ha;
    answered = l.sound;
  }

module _ {E : Type 0} {Good : E → Type 0} (ops : TransportOps E) (t : IsTransport Good ops)
    (d : Device) where
  data_phase-Ends :
      (code trans_id : ℕ) (b : Option (List Byte)) (n : ℤ) (c : Core E)
      → Covers b n
      → OnDevice Good d c
      → Ends (λ _ c'. OnDevice Good d c') (send_data_phase ops code trans_id b n c)
  unfolding send_data_phase
  data_phase-Ends code trans_id none n c h k = k
  data_phase-Ends code trans_id (some b) (negsuc n) c h k = k
  data_phase-Ends code trans_id (some b) (pos zero) c h k = k
  data_phase-Ends code trans_id (some b) (pos (suc n)) c h k =
      Ends-bind (λ _ c'. OnDevice Good d c') (λ _ c'. OnDevice Good d c') _ _
        (send-Ends ops t d _ sizeof_container c (data_header-size code trans_id (suc n)) k)
        λ ret c' k'.
          if-Ends (λ _ c'. OnDevice Good d c') (failed ret) _ _ c' k'
            (send-Ends ops t d b (suc n) c' h k')

  -- After a step that keeps the device: leave on failure, else go on.
  unless_failed :
      {A : Type 0} (status : A → ℤ) (r : Outcome (Core E) A) (next : A → M (Core E) (ℤ × Option ℕ))
      → Ends (λ _ c'. OnDevice Good d c') r
      → ((a : A) (c' : Core E) → OnDevice Good d c' → Ends (Left Good d) (next a c'))
      → Ends (Left Good d) (elim r [
        | done a c' ↦ (if failed (status a) then leave (status a) else next a) c'
        | fault e ↦ fault e
      ])
  unless_failed status r next h go =
      Ends-bind (λ _ c'. OnDevice Good d c') (Left Good d) r _ h
        λ a c' k. elim (Bool-cases (failed (status a))) [
          | inl f ↦ rw f (leave-Ends Good d (status a) c' k f)
          | inr f ↦ rw f (go a c' k)
        ]

  transact-Ends :
      (code trans_id : ℕ) (params : List ℕ) (b : Option (List Byte)) (n : ℤ) (c : Core E)
      → OnDevice Good d c
      → length params ≤ 5
      → Covers b n
      → Ends (Left Good d) (transact ops code trans_id params b n c)
  unfolding transact
  transact-Ends code trans_id params b n c k hp hb =
      let cmd = build_ptp_container container_command code trans_id params in
      unless_failed (λ ret. ret) _ _
        (send-Ends ops t d (encode cmd) cmd.length c
          (omega (
            arith,
            length-encode-build container_command code trans_id params,
            length-build container_command code trans_id params hp,
          ))
          k)
        λ _ c1 k1.
          unless_failed (λ ret. ret) _ _ (data_phase-Ends code trans_id b n c1 hb k1)
            λ _ c2 k2.
              unless_failed (λ r. r.0) _ _ (receive-Ends ops t d sizeof_container c2 k2)
                λ r c3 k3. check-Ends Good d trans_id r.1 c3 k3

module _ {E : Type 0} (ops : TransportOps E) where
  -- With the mutex free and without a session, every command but OpenSession is refused with
  -- -ENOTCONN, nothing is sent and nothing of the device changes.
  pub command-refused :
      (c : Core E) (code : ℕ) (params : List ℕ) (data_buf : Option (List Byte)) (data_len : ℤ)
      → c.dev.ptp.lock ≡ false
      → c.dev.ptp.session_open ≡ false
      → (code == op_open_session) ≡ false
      → ptp_command ops valid code params data_buf data_len valid c ≡ done (enotconn, none) c
  unfolding ptp_command
  command-refused c code params data_buf data_len hl hs hc = rw (hl, hs, hc) refl

  -- With a session, or to open one, the command counts its transaction and goes to the camera.
  pub command-started :
      (c : Core E) (code : ℕ) (params : List ℕ) (data_buf : Option (List Byte)) (data_len : ℤ)
      → c.dev.ptp.lock ≡ false
      → (c.dev.ptp.session_open ≡ true) ⊎ ((code == op_open_session) ≡ true)
      → ptp_command ops valid code params data_buf data_len valid c
        ≡ transact ops code c.dev.ptp.transaction_id params data_buf data_len
            (next_transaction (set_ptp (record (c.dev.ptp) { lock = true }) c))
  unfolding ptp_command
  command-started c code params data_buf data_len hl (inl hs) = rw (hl, hs) refl
  command-started c code params data_buf data_len hl (inr ho) =
      elim (Bool-cases c.dev.ptp.session_open) [
        | inl hs ↦ rw (hl, hs) refl
        | inr hs ↦ rw (hl, hs, ho) refl
      ]

module _ {E : Type 0} {Good : E → Type 0} (ops : TransportOps E) (t : IsTransport Good ops) where
  started-Exchanged :
      (c : Core E) (code : ℕ) (params : List ℕ) (b : Option (List Byte)) (n : ℤ)
      → Good c.env
      → c.dev.ptp.lock ≡ false
      → (c.dev.ptp.session_open ≡ true) ⊎ ((code == op_open_session) ≡ true)
      → length params ≤ 5
      → Covers b n
      → Ends (Exchanged Good code c) (ptp_command ops valid code params b n valid c)
  started-Exchanged c code params b n g hl ha hp hb =
      rw (command-started ops c code params b n hl ha) (
        Ends-mono (Left Good _) (Exchanged Good code c) _
          (transact-Ends ops t _ code c.dev.ptp.transaction_id params b n _ (refl, g) hp hb)
          (Left-Exchanged Good code c hl ha))

  -- On a device whose mutex is free, with at most five parameters and a buffer as long as the data,
  -- a command always ends, and as `Exchanged` says.
  pub ptp_command-Exchanged :
      (c : Core E) (code : ℕ) (params : List ℕ) (data_buf : Option (List Byte)) (data_len : ℤ)
      → Good c.env
      → c.dev.ptp.lock ≡ false
      → length params ≤ 5
      → Covers data_buf data_len
      → Ends (Exchanged Good code c) (ptp_command ops valid code params data_buf data_len valid c)
  ptp_command-Exchanged c code params b n g hl hp hb = elim (Bool-cases c.dev.ptp.session_open) [
    | inl s ↦ started-Exchanged c code params b n g hl (inl s) hp hb
    | inr s ↦ elim (Bool-cases (code == op_open_session)) [
      | inl o ↦ started-Exchanged c code params b n g hl (inr o) hp hb
      | inr o ↦ rw (command-refused ops c code params b n hl s o) (record {
        frame = refl;
        alive = g;
        counted = inl refl;
        allowed = λ f. cc;
        answered = λ f. cc;
      })
    ]
  ]

-- ===== src/Video/Frames.antt =====
-- What becomes of the buffers of drivers/video/canon-r5-videobuf2.c and of the frames.
use canon_r.Prelude.{
  ℕ, ◌+◌, ◌%◌, ◌^◌, ◌≤◌, ◌≡◌, refl, sym, ap, ◌∙◌, ◌⊎◌, inl, inr, einval, true, false, List, [], ◌∷◌,
  Option, none, some, ltb, ◌==◌, if◌then◌else◌, ℤ, failed, success, M, Outcome, done, fault, Ends,
  done-Ends, Ends-bind, Ptr, null, valid, Bool-cases, arith,
}
use canon_r.Device.{Core}
use canon_r.Ptp.{TransportOps}
use canon_r.Ptp.Transport.{IsTransport}
use canon_r.Ptp.Command.{Exchanged}
use canon_r.Ptp.Requests.{SessionInv, Framed, Exchanged-Framed, simple_command-Ends}
use canon_r.Ptp.Camera.{ptp_get_liveview_frame, op_get_liveview}
use canon_r.Video.{VideoSystem, VideoStream, on_stream, on_core}
use canon_r.Video.LiveView.{is_active}
use canon_r.Video.Buffers.{
  clamp_buffers, queue_setup, head_of, tail_of, drop_frame, get_next_buffer, requeue, frame_into,
  work_with, frame_work,
}
use canon_r.Video.{PixFormat}

clamp_low : (n : ℕ) → 3 ≤ clamp_buffers n
unfolding clamp_buffers
clamp_low n = ground arith

clamp_high : (n : ℕ) → clamp_buffers n ≤ 8
unfolding clamp_buffers
clamp_high n = ground arith

large_enough :
    (size image : ℕ) → (if ltb size image then einval else success) ≡ success → image ≤ size
large_enough size image h = elim (Bool-cases (ltb size image)) [
  | inl e ↦ absurd cc
  | inr e ↦ ground (arith, e)
]

-- Whatever number of buffers is asked for, 3 to 8 are made; a setup that succeeds has planes at
-- least as large as an image, and one plane unless the caller gave planes.
pub queue_setup-bounds :
    (format : PixFormat) (nbuffers nplanes size : ℕ)
    → let q = queue_setup format nbuffers nplanes size in
      (3 ≤ q.nbuffers)
      × (q.nbuffers ≤ 8)
      × (q.status ≡ success → (format.sizeimage ≤ q.size) × (1 ≤ q.nplanes))
unfolding queue_setup
queue_setup-bounds format nbuffers nplanes size = elim (Bool-cases (nplanes == 0)) [
  | inl e ↦ rw e (clamp_low nbuffers, clamp_high nbuffers, λ h. (omega arith, omega arith))
  | inr e ↦ rw e (
    clamp_low nbuffers,
    clamp_high nbuffers,
    λ h. (large_enough size format.sizeimage h, ground (arith, e)),
  )
]

-- What a frame work of a stream that is on leaves of it.
abbrev pub worked : VideoStream → VideoStream
worked t = record t { frame_queued = false; dropped_frames = (t.dropped_frames + 1) % 2 ^ 64 }

module _ {E : Type 0} where
  pub on_core-Ends :
      {A : Type 0} (P : A → Core E → Type 0) (m : M (Core E) A) (s : VideoSystem E)
      → Ends P (m s.core)
      → Ends (λ a s'. P a s'.core × (s' ≡ record s { core = s'.core })) (on_core m s)
  on_core-Ends {A = A} P m s h = through (m s.core) h
    where
      through :
          (r : Outcome (Core E) A)
          → Ends P r
          → Ends
              (λ a s'. P a s'.core × (s' ≡ record s { core = s'.core }))
              (elim r [ done a c ↦ done a (record s { core = c }) | fault x ↦ fault x ])
      through (done a c) k = (k, refl)
      through (fault x) k = absurd k

  -- A buffer goes back to the front, and its frame is dropped.
  abbrev put_first : ℕ → VideoSystem E → VideoSystem E
  put_first b =
      on_stream (λ t. record (drop_frame t) { buf_list = b ∷ t.buf_list; buf_lock = false })

  requeue-eq :
      (b : ℕ) (s : VideoSystem E)
      → s.stream.buf_lock ≡ false
      → requeue b s ≡ done tt (put_first b s)
  requeue-eq b s h = rw h refl

  frameless-eq :
      (b : ℕ) (ret : ℤ) (o : Option (Ptr × ℕ)) (s : VideoSystem E)
      → (o ≡ none) ⊎ (o ≡ some (null, 0))
      → s.stream.buf_lock ≡ false
      → frame_into b (ret, o) s ≡ done tt (put_first b s)
  unfolding frame_into
  frameless-eq b ret o s (inl e) h = rw (e, requeue-eq b s h) refl
  frameless-eq b ret o s (inr e) h = elim (Bool-cases (failed ret)) [
    | inl f ↦ rw (e, f, requeue-eq b s h) refl
    | inr f ↦ rw (e, f, requeue-eq b s h) refl
  ]

module _ {E : Type 0} {Good : E → Type 0} (ops : TransportOps E) (t : IsTransport Good ops) where
  -- No frame comes with the status.
  abbrev Frameless : Core E → ℤ × Option (Ptr × ℕ) → Core E → Type 0
  Frameless c r c' = Framed Good c c' × ((r.1 ≡ none) ⊎ (r.1 ≡ some (null, 0)))

  frame-Frameless :
      (c : Core E)
      → SessionInv c.dev
      → Good c.env
      → Ends (Frameless c) (ptp_get_liveview_frame ops valid valid valid c)
  unfolding ptp_get_liveview_frame
  frame-Frameless c v g =
      Ends-bind (Exchanged Good op_get_liveview c) (Frameless c) _ _
        (simple_command-Ends ops t op_get_liveview [] c v g (omega arith))
        λ r c' x. elim (Bool-cases (failed r.0)) [
          | inl f ↦ rw (f, Ends) (Exchanged-Framed Good op_get_liveview c r c' v x, inl refl)
          | inr f ↦ rw (f, Ends) (Exchanged-Framed Good op_get_liveview c r c' v x, inr refl)
        ]

  -- What a frame work that started in `s` comes to.
  abbrev Dropped : VideoSystem E → Unit {0} → VideoSystem E → Type 0
  Dropped s r s' =
      Framed Good s.core s'.core
      × (s'.stream ≡ worked s.stream)
      × (s'.live_view_lock ≡ s.live_view_lock)

  -- The state in which the frame is asked for.
  abbrev asking : List ℕ → VideoSystem E → VideoSystem E
  asking rest =
      on_stream (λ t. record t { frame_queued = false; buf_list = rest; buf_lock = false })

  with_buffer-Dropped :
      (b : ℕ) (rest : List ℕ) (s : VideoSystem E)
      → s.stream.buf_list ≡ b ∷ rest
      → s.stream.buf_lock ≡ false
      → SessionInv s.core.dev
      → Good s.core.env
      → Ends (Dropped s) (work_with ops (some b) (asking rest s))
  unfolding work_with
  with_buffer-Dropped b rest s he hl v g =
      Ends-bind
        (λ r s'. Frameless s.core r s'.core × (s' ≡ record (asking rest s) { core = s'.core }))
        (Dropped s) _ (frame_into b)
        (on_core-Ends (Frameless s.core) (ptp_get_liveview_frame ops valid valid valid)
          (asking rest s) (frame-Frameless s.core v g))
        (λ r s1 ((w, o), e).
          done-Ends (Dropped s) (frame_into b r s1) tt (put_first b s1)
            (frameless-eq b r.0 r.1 s1 o (ap (λ s. s.stream.buf_lock) e))
            (
              w,
              ap (λ s. (put_first b s).stream) e
                  ∙ (λ i. record (worked s.stream) { buf_list = sym he i; buf_lock = sym hl i }),
              ap (λ s. s.live_view_lock) e,
            ))

  with_head-Dropped :
      (l : List ℕ) (s : VideoSystem E)
      → s.stream.buf_list ≡ l
      → s.stream.buf_lock ≡ false
      → SessionInv s.core.dev
      → Good s.core.env
      → Ends (Dropped s) (work_with ops (head_of l) (asking (tail_of l) s))
  unfolding work_with
  with_head-Dropped [] s he hl v g = (
    record { frame = refl; counter = v.counter; alive = g },
    λ i. record (worked s.stream) { buf_list = sym he i; buf_lock = sym hl i },
    refl,
  )
  with_head-Dropped (b ∷ rest) s he hl v g = with_buffer-Dropped b rest s he hl v g

  work-eq :
      (s : VideoSystem E)
      → is_active s.stream.state ≡ true
      → s.stream.buf_lock ≡ false
      → frame_work ops s
        ≡ work_with ops (head_of s.stream.buf_list) (asking (tail_of s.stream.buf_list) s)
  unfolding frame_work get_next_buffer
  work-eq s ha hl = rw (ha, hl) refl

  -- With the stream on, its spinlock free, and between two operations of the PTP layer over a good
  -- transport, the frame work always ends, whatever the camera answers, and never delivers a
  -- frame: one more counts as dropped, no buffer is given back, and the list, in its order, and
  -- the number of frames are as before. Of the device only the transaction counter has moved.
  pub frame_work-Dropped :
      (s : VideoSystem E)
      → is_active s.stream.state ≡ true
      → s.stream.buf_lock ≡ false
      → SessionInv s.core.dev
      → Good s.core.env
      → Ends (Dropped s) (frame_work ops s)
  frame_work-Dropped s ha hl v g =
      rw (work-eq s ha hl) (with_head-Dropped s.stream.buf_list s refl hl v g)

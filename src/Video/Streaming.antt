-- ===== src/Video/Streaming.antt =====
-- How streaming starts and stops in drivers/video/canon-r5-videobuf2.c.
use canon_r.Prelude.{
  ℕ, ◌≡◌, refl, ap, ◌∙◌, ◌⊎◌, inl, inr, true, false, List, [], ◌∷◌, if◌then◌else◌, ℤ, failed,
  success, enomem, M, ◌>>=◌, ◌>>◌, modify, done, Ends, Ends-bind, Ptr, null, valid, is_null,
  Ptr-cases, Bool-cases,
}
use canon_r.Ptp.{TransportOps}
use canon_r.Ptp.Transport.{IsTransport}
use canon_r.Ptp.Requests.{Framed-trans, SessionInv, Framed, Framed-Inv}
use canon_r.Video.{
  VideoSystem, VideoStream, BufferState, buf_queued, buf_error, stopped, starting, stopping, active,
  on_stream,
}
use canon_r.Video.LiveView.{stop_live_view}
use canon_r.Video.Buffers.{return_all_buffers, give_all_back, give_back}
use canon_r.Video.Queue.{abort_streaming, streaming_with, start_streaming, stop_streaming}
use canon_r.Video.Switching.{LiveView, Tried, stop_live_view-Ends, start_live_view-Ends}

-- The buffers of a list given back in a state, the first one first.
abbrev pub back_onto : BufferState → List ℕ → List (ℕ × BufferState) → List (ℕ × BufferState)
back_onto state [] r = r
back_onto state (b ∷ rest) r = back_onto state rest ((b, state) ∷ r)

give_all-eq :
    (state : BufferState) (l : List ℕ) (t : VideoStream)
    → give_all_back state l t ≡ record t { returned = back_onto state l (t.returned) }
unfolding give_all_back
give_all-eq state [] t = refl
give_all-eq state (b ∷ rest) t = give_all-eq state rest (give_back state b t)

-- The stream with no buffer left.
abbrev pub emptied : BufferState → VideoStream → VideoStream
emptied state t = record t {
  buf_list = [];
  returned = back_onto state (t.buf_list) (t.returned);
  buf_lock = false;
}

module _ {E : Type 0} where
  return_all-eq :
      (state : BufferState) (s : VideoSystem E)
      → s.stream.buf_lock ≡ false
      → return_all_buffers state s ≡ done tt (on_stream (emptied state) s)
  unfolding return_all_buffers
  return_all-eq state s h =
      rw (h, give_all-eq state s.stream.buf_list (record (s.stream) { buf_lock = true })) refl

module _ {E : Type 0} {Good : E → Type 0} (ops : TransportOps E) (t : IsTransport Good ops) where
  abbrev halted : VideoStream → VideoStream
  halted t = record t {
    state = stopping;
    frame_queued = if is_null t.frame_wq then t.frame_queued else false;
    frame_wq = null;
  }

  abbrev give_all : ℤ → M (VideoSystem E) (Unit {0})
  give_all ret = do
    return_all_buffers buf_error
    modify (on_stream (λ t. record t { state = stopped }))

  stop_streaming-eq :
      (s : VideoSystem E)
      → stop_streaming ops s ≡ (stop_live_view ops >>= give_all) (on_stream halted s)
  unfolding stop_streaming
  stop_streaming-eq s = elim (Ptr-cases s.stream.frame_wq) [ inl e ↦ rw e refl | inr e ↦ rw e refl ]

  -- Neither the buffers nor live view are locked.
  abbrev pub Unlocked : VideoSystem E → Type 0
  Unlocked s = (s.stream.buf_lock ≡ false) × (s.live_view_lock ≡ false)

  -- Streaming is over: all buffers were given back, in their order.
  abbrev pub Over : BufferState → VideoSystem E → VideoSystem E → Type 0
  Over state s s' =
      Framed Good s.core s'.core
      × (s'.stream.state ≡ stopped)
      × (s'.stream.buf_list ≡ [])
      × (s'.stream.returned ≡ back_onto state s.stream.buf_list s.stream.returned)
      × Unlocked s'

  given :
      (state : BufferState) (s s1 : VideoSystem E)
      → Framed Good s.core s1.core
      → s1.stream.buf_list ≡ s.stream.buf_list
      → s1.stream.returned ≡ s.stream.returned
      → s1.live_view_lock ≡ false
      → Over state s (on_stream (λ t. record t { state = stopped }) (on_stream (emptied state) s1))
  given state s s1 w l r free = (w, refl, refl, rw (l, r) refl, (refl, free))

  pub stop_streaming-Over :
      (s : VideoSystem E)
      → SessionInv s.core.dev
      → Good s.core.env
      → s.stream.buf_lock ≡ false
      → s.live_view_lock ≡ false
      → s.core.dev.drivers.video_priv ≡ valid
      → Ends
          (λ _ s'.
            Over buf_error s s' × (s'.stream.frame_wq ≡ null) × (s'.live_view_active ≡ false))
          (stop_streaming ops s)
  stop_streaming-Over s v g hb hl hp = rw (stop_streaming-eq s) (
      Ends-bind (λ ret s'. LiveView Good false (on_stream halted s) s') Stopped _ give_all
        (stop_live_view-Ends ops t (on_stream halted s) v g hl hp)
        (λ ret s1 (w, e, off, free, same).
          rw (return_all-eq buf_error s1 (ap (λ t. t.buf_lock) e ∙ hb), ◌>>=◌, Ends)
            (
              given buf_error s s1 w (ap (λ t. t.buf_list) e) (ap (λ t. t.returned) e) free,
              ap (λ t. t.frame_wq) e,
              off,
            )))
    where
      Stopped : Unit {0} → VideoSystem E → Type 0
      Stopped r s' =
          Over buf_error s s' × (s'.stream.frame_wq ≡ null) × (s'.live_view_active ≡ false)

  -- What a start ends with: streaming is on with the buffers of before, or it is over.
  abbrev pub Begun : VideoSystem E → ℤ → VideoSystem E → Type 0
  Begun s ret s' =
      ((ret ≡ success)
        × Framed Good s.core s'.core
        × (s'.stream.state ≡ active)
        × (s'.stream.frame_wq ≡ valid)
        × (s'.live_view_active ≡ true)
        × (s'.stream.buf_list ≡ s.stream.buf_list)
        × (s'.stream.returned ≡ s.stream.returned)
        × (s'.stream.frame_count ≡ 0)
        × Unlocked s')
      ⊎ ((failed ret ≡ true) × Over buf_queued s s')

  abbrev beginning : VideoStream → VideoStream
  beginning t = record t { state = starting; frame_count = 0; dropped_frames = 0 }

  abort-Over :
      (ret : ℤ) (s s1 : VideoSystem E)
      → Framed Good s.core s1.core
      → s1.stream.buf_lock ≡ false
      → s1.stream.buf_list ≡ s.stream.buf_list
      → s1.stream.returned ≡ s.stream.returned
      → s1.live_view_lock ≡ false
      → failed ret ≡ true
      → Ends (Begun s) (abort_streaming ret s1)
  unfolding abort_streaming
  abort-Over ret s s1 w b l r free f =
      rw
        (return_all-eq buf_queued (on_stream (λ t. record t { state = stopped }) s1) b, ◌>>=◌, Ends)
        (inr (f, given_queued))
    where
      given_queued :
          Over buf_queued s
            (on_stream (emptied buf_queued) (on_stream (λ t. record t { state = stopped }) s1))
      given_queued = (w, refl, refl, rw (l, r) refl, (refl, free))

  no_wq : VideoStream → VideoStream
  no_wq t = record t { frame_wq = null }

  streaming_with-Begun :
      (wq : Ptr) (s s1 : VideoSystem E)
      → SessionInv s.core.dev
      → LiveView Good true (on_stream beginning s) s1
      → s.stream.buf_lock ≡ false
      → s1.core.dev.drivers.video_priv ≡ valid
      → Ends (Begun s) (streaming_with ops wq s1)
  unfolding streaming_with no_wq
  streaming_with-Begun valid s s1 v (w, e, on, free, same) b p = inl (
    refl,
    w,
    refl,
    refl,
    on,
    ap (λ t. t.buf_list) e,
    ap (λ t. t.returned) e,
    ap (λ t. t.frame_count) e,
    (ap (λ t. t.buf_lock) e ∙ b, free),
  )
  streaming_with-Begun null s s1 v (w, e, on, free, same) b p =
      Ends-bind (λ ret s'. LiveView Good false (on_stream no_wq s1) s') (Begun s) _
        (λ ret. abort_streaming enomem)
        (stop_live_view-Ends ops t (on_stream no_wq s1) (Framed-Inv Good s.core s1.core v w) w.alive
          free p)
        (λ ret s2 (w2, e2, off, free2, same2).
          abort-Over enomem s s2 (Framed-trans Good s.core s1.core s2.core w w2)
            (ap (λ t. t.buf_lock) e2 ∙ ap (λ t. t.buf_lock) e ∙ b)
            (ap (λ t. t.buf_list) e2 ∙ ap (λ t. t.buf_list) e)
            (ap (λ t. t.returned) e2 ∙ ap (λ t. t.returned) e) free2 refl)

  -- With the spinlock and the live view mutex free, between two operations of the PTP layer over
  -- a good transport, and with the driver registered, the start of streaming always ends. Either it
  -- succeeds: streaming is active with a workqueue and live view on, no frame is counted yet, and
  -- the buffers are where they were. Or it fails: the stream is stopped, its list is empty, and
  -- each of its buffers was given back as queued, in their order.
  pub start_streaming-Begun :
      (wq : Ptr) (s : VideoSystem E)
      → SessionInv s.core.dev
      → Good s.core.env
      → s.stream.buf_lock ≡ false
      → s.live_view_lock ≡ false
      → s.core.dev.drivers.video_priv ≡ valid
      → Ends (Begun s) (start_streaming ops wq s)
  unfolding start_streaming
  start_streaming-Begun wq s v g hb hl hp =
      Ends-bind (Tried ops t (on_stream beginning s)) (Begun s) _ _
        (start_live_view-Ends ops t (on_stream beginning s) v g hl hp)
        (λ ret s1 y. elim (Bool-cases (failed ret)) [
          | inl f ↦ rw f (
              abort-Over ret s s1 y.0 (ap (λ t. t.buf_lock) y.1 ∙ hb) (ap (λ t. t.buf_list) y.1)
                (ap (λ t. t.returned) y.1) y.3 f)
          | inr f ↦ rw f (
              streaming_with-Begun wq s s1 v (y.0, y.1, y.2 ∙ rw f refl, y.3, y.4) hb
                (ap (λ d. d.drivers.video_priv) y.0.frame ∙ hp))
        ])

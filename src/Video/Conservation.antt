-- ===== src/Video/Conservation.antt =====
-- Where the buffers of drivers/video/canon-r5-videobuf2.c are, over any use of the stream.
use canon_r.Prelude.{
  ℕ, ◌+◌, ◌≡◌, refl, ap, ◌∙◌, inl, inr, Bool, true, false, not, ◌&&◌, List, [], ◌∷◌, ◌++◌, Option,
  ◌==◌, if◌then◌else◌, ℤ, return, Ends, Ends-bind, Ends-mono, null, valid, is_null, Bool-cases,
  arith,
}
use canon_r.Ptp.{TransportOps}
use canon_r.Ptp.Transport.{IsTransport}
use canon_r.Ptp.Requests.{SessionInv, Framed, Framed-Inv}
use canon_r.Video.{VideoSystem, VideoStream, BufferState, buf_queued, buf_error, on_stream}
use canon_r.Video.LiveView.{is_active, timer_callback}
use canon_r.Video.Buffers.{
  head_of, tail_of, drop_frame, deliver, buf_queue, get_next_buffer, frame_work, frame_to,
  queue_frame, frame_done,
}
use canon_r.Video.Frames.{worked, frame_work-Dropped}
use canon_r.Video.Streaming.{Over, Begun, back_onto, stop_streaming-Over, start_streaming-Begun}
use canon_r.Video.Serve.{
  StreamRequest, queue, start, stop, tick, work, done_frame, frame, stream_serve, stream_serve_all,
}

-- How often a buffer stands in the list, was given back, and was queued.
abbrev pub count : ℕ → List ℕ → ℕ
count b [] = 0
count b (a ∷ rest) = (if a == b then 1 else 0) + count b rest

abbrev pub count_back : ℕ → List (ℕ × BufferState) → ℕ
count_back b [] = 0
count_back b ((a, state) ∷ rest) = (if a == b then 1 else 0) + count_back b rest

abbrev pub held : ℕ → VideoStream → ℕ
held b t = count b t.buf_list + count_back b t.returned

abbrev pub queued_by : ℕ → StreamRequest → ℕ
queued_by b (queue a) = if a == b then 1 else 0
queued_by b _ = 0

abbrev pub queued : ℕ → List StreamRequest → ℕ
queued b [] = 0
queued b (q ∷ qs) = queued_by b q + queued b qs

count-append :
    (b a : ℕ) (l : List ℕ) → count b (l ++ a ∷ []) ≡ count b l + (if a == b then 1 else 0)
count-append b a [] = omega arith
count-append b a (c ∷ l) = omega (arith, count-append b a l)

count-back_onto :
    (b : ℕ) (state : BufferState) (l : List ℕ) (r : List (ℕ × BufferState))
    → count_back b (back_onto state l r) ≡ count b l + count_back b r
count-back_onto b state [] r = omega arith
count-back_onto b state (a ∷ l) r = omega (arith, count-back_onto b state l ((a, state) ∷ r))

no_more : (n : ℕ) → n ≡ n + 0
no_more n = omega arith

module _ {E : Type 0} (Good : E → Type 0) where
  -- Between two requests nothing is locked, the driver is registered and the device settled.
  pub record StreamInv (s : VideoSystem E) : Type 0 where
    pub unlocked : s.stream.buf_lock ≡ false
    pub free : s.live_view_lock ≡ false
    pub registered : s.core.dev.drivers.video_priv ≡ valid
    pub session : SessionInv s.core.dev
    pub alive : Good s.core.env

  -- After a request, each buffer is held as often as before, and once more if it was queued.
  abbrev pub Steady : StreamRequest → VideoSystem E → Unit {0} → VideoSystem E → Type 0
  Steady q s r s' = StreamInv s' × ((b : ℕ) → held b s'.stream ≡ held b s.stream + queued_by b q)

  after :
      (s s' : VideoSystem E)
      → StreamInv s
      → Framed Good s.core s'.core
      → s'.stream.buf_lock ≡ false
      → s'.live_view_lock ≡ false
      → StreamInv s'
  after s s' k w b l = record {
    unlocked = b;
    free = l;
    registered = ap (λ d. d.drivers.video_priv) w.frame ∙ k.registered;
    session = Framed-Inv Good s.core s'.core k.session w;
    alive = w.alive;
  }

module _ {E : Type 0} {Good : E → Type 0} (ops : TransportOps E) (t : IsTransport Good ops) where
  over :
      (state : BufferState) (s s' : VideoSystem E)
      → StreamInv Good s
      → Over ops t state s s'
      → StreamInv Good s' × ((b : ℕ) → held b s'.stream ≡ held b s.stream + 0)
  over state s s' k (w, x, l, r, (u, f)) = (
    after Good s s' k w u f,
    λ b. rw (l, r) (omega (arith, count-back_onto b state s.stream.buf_list s.stream.returned)),
  )

  begun :
      (s : VideoSystem E) (ret : ℤ) (s' : VideoSystem E)
      → StreamInv Good s
      → Begun ops t s ret s'
      → StreamInv Good s' × ((b : ℕ) → held b s'.stream ≡ held b s.stream + 0)
  begun s ret s' k (inl (r, w, x, y, z, l, g, n, (u, f))) =
      (after Good s s' k w u f, λ b. rw (l, g) (omega arith))
  begun s ret s' k (inr (f, o)) = over buf_queued s s' k o

  -- The driver's own part of the state has changed, and what is held has not.
  stays :
      (s : VideoSystem E) (f : VideoStream → VideoStream)
      → StreamInv Good s
      → (f s.stream).buf_lock ≡ false
      → StreamInv Good (on_stream f s)
  stays s f k u = record {
    unlocked = u;
    free = k.free;
    registered = k.registered;
    session = k.session;
    alive = k.alive;
  }

  queue-Steady :
      (a : ℕ) (s : VideoSystem E)
      → StreamInv Good s
      → Ends (Steady Good (queue a) s) (buf_queue a s)
  unfolding buf_queue
  queue-Steady a s k =
      rw (k.unlocked, Ends)
        (
          stays s (λ t. record t { buf_list = t.buf_list ++ a ∷ []; buf_lock = false }) k refl,
          λ b. omega (arith, count-append b a s.stream.buf_list),
        )

  timer-Steady :
      (s : VideoSystem E) → StreamInv Good s → Ends (Steady Good tick s) (timer_callback s)
  unfolding timer_callback
  timer-Steady s k =
      elim (Bool-cases (is_active s.stream.state && not (is_null s.stream.frame_wq))) [
        | inl e ↦ rw (e, Ends) (ticked s k, λ b. omega arith)
        | inr e ↦ rw (e, Ends) (ticked s k, λ b. omega arith)
      ]
    where
      ticked :
          {timer : Option ℕ} {q : Bool} (s : VideoSystem E)
          → StreamInv Good s
          → StreamInv Good
              (record s { stream = record (s.stream) { frame_queued = q }; frame_timer = timer })
      ticked s k = record {
        unlocked = k.unlocked;
        free = k.free;
        registered = k.registered;
        session = k.session;
        alive = k.alive;
      }

  -- The state in which the buffer at the front of the list was taken.
  abbrev taken : VideoSystem E → VideoSystem E
  taken = on_stream (λ t. record t { buf_list = tail_of (t.buf_list); buf_lock = false })

  frame-eq :
      (n : ℕ) (s : VideoSystem E)
      → is_active s.stream.state ≡ true
      → s.stream.buf_lock ≡ false
      → queue_frame n s ≡ frame_to n (head_of s.stream.buf_list) (taken s)
  unfolding queue_frame get_next_buffer
  frame-eq n s ha hl = rw (ha, hl) refl

  -- What is held of the rest of the list and what was given back.
  abbrev Given : VideoSystem E → ℤ → VideoSystem E → Type 0
  Given s ret s' = Steady Good (frame 0) s tt s'

  frame_to-Given :
      (n : ℕ) (l : List ℕ) (s : VideoSystem E)
      → s.stream.buf_list ≡ l
      → StreamInv Good s
      → Ends (Given s) (frame_to n (head_of l) (taken s))
  unfolding frame_to
  frame_to-Given n [] s e k = (
    stays s (λ t. drop_frame (record t { buf_list = tail_of (t.buf_list); buf_lock = false })) k
        refl,
    λ b. rw e (omega arith),
  )
  frame_to-Given n (a ∷ rest) s e k = (
    stays s
        (λ t. deliver s.now a n (record t { buf_list = tail_of (t.buf_list); buf_lock = false })) k
        refl,
    λ b. rw e (omega arith),
  )

  inactive :
      (n : ℕ) (s : VideoSystem E)
      → StreamInv Good s
      → is_active s.stream.state ≡ false
      → Ends (Given s) (queue_frame n s)
  unfolding queue_frame
  inactive n s k e = rw (e, Ends) (k, λ b. omega arith)

  frame-Given : (n : ℕ) (s : VideoSystem E) → StreamInv Good s → Ends (Given s) (queue_frame n s)
  frame-Given n s k = elim (Bool-cases (is_active s.stream.state)) [
    | inl e ↦ rw (frame-eq n s e k.unlocked) (frame_to-Given n s.stream.buf_list s refl k)
    | inr e ↦ inactive n s k e
  ]

  work-Steady :
      (s : VideoSystem E) → StreamInv Good s → Ends (Steady Good work s) (frame_work ops s)
  unfolding frame_work
  work-Steady s k = elim (Bool-cases (is_active s.stream.state)) [
    | inr e ↦
        rw (e, Ends)
          (stays s (λ t. record t { frame_queued = false }) k k.unlocked, λ b. omega arith)
    | inl e ↦
        Ends-mono
          (λ _ s'.
            Framed Good s.core s'.core
            × (s'.stream ≡ worked s.stream)
            × (s'.live_view_lock ≡ s.live_view_lock))
          (Steady Good work s) _ (frame_work-Dropped ops t s e k.unlocked k.session k.alive)
          (λ r s' (w, q, l). (
            after Good s s' k w (ap (λ t. t.buf_lock) q ∙ k.unlocked) (l ∙ k.free),
            λ b. ap (λ t. held b t) q ∙ no_more (held b s.stream),
          ))
  ]

  serve-Steady :
      (q : StreamRequest) (s : VideoSystem E)
      → StreamInv Good s
      → Ends (Steady Good q s) (stream_serve ops q s)
  unfolding stream_serve frame_done
  serve-Steady (queue b) s k = queue-Steady b s k
  serve-Steady (start wq) s k =
      Ends-bind (Begun ops t s) (Steady Good (start wq) s) _ _
        (start_streaming-Begun ops t wq s k.session k.alive k.unlocked k.free k.registered)
        (λ ret s' y. begun s ret s' k y)
  serve-Steady stop s k =
      Ends-mono
        (λ _ s'.
          Over ops t buf_error s s' × (s'.stream.frame_wq ≡ null) × (s'.live_view_active ≡ false))
        (Steady Good stop s) _
        (stop_streaming-Over ops t s k.session k.alive k.unlocked k.free k.registered)
        (λ r s' y. over buf_error s s' k y.0)
  serve-Steady tick s k = timer-Steady s k
  serve-Steady work s k = work-Steady s k
  serve-Steady done_frame s k =
      (stays s (λ t. record t { last_frame_time = s.now }) k k.unlocked, λ b. omega arith)
  serve-Steady (frame n) s k =
      Ends-bind (Given s) (Steady Good (frame n) s) _ (λ ret. return tt) (frame-Given n s k)
        (λ ret s' y. y)

  -- Over a good transport, from a registered driver with nothing locked: any sequence of buffers
  -- queued, starts, stops, timer events, frame works, frames and frame ends runs to its end, in
  -- such a driver; and no buffer is lost or given back twice: each stands in the list and among
  -- those given back, together, as often as before and once more for each time it was queued.
  pub stream_serve_all-held :
      (qs : List StreamRequest) (s : VideoSystem E)
      → StreamInv Good s
      → Ends
          (λ _ s'. StreamInv Good s' × ((b : ℕ) → held b s'.stream ≡ held b s.stream + queued b qs))
          (stream_serve_all ops qs s)
  unfolding stream_serve_all
  stream_serve_all-held [] s k = (k, λ b. omega arith)
  stream_serve_all-held (q ∷ qs) s k =
      Ends-bind (Steady Good q s) (Kept (q ∷ qs) s) _ _ (serve-Steady q s k) (λ r s1 (k1, h1).
        Ends-mono (Kept qs s1) (Kept (q ∷ qs) s) _ (stream_serve_all-held qs s1 k1)
          (λ r2 s2 (k2, h2). (k2, λ b. omega (arith, h1 b, h2 b))))
    where
      Kept : List StreamRequest → VideoSystem E → Unit {0} → VideoSystem E → Type 0
      Kept qs s r s' =
          StreamInv Good s' × ((b : ℕ) → held b s'.stream ≡ held b s.stream + queued b qs)

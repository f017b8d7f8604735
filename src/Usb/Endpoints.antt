-- ===== src/Usb/Endpoints.antt =====
-- `canon_r5_usb_init_endpoints` of drivers/core/canon-r5-usb.c: the endpoints, and the interrupt URB.
use canon_r.Prelude.{
  ℕ, ◌≡◌, refl, ap, ◌∙◌, inl, inr, ◌&&◌, Bool, true, false, not, is_some, List, [], ◌∷◌, Option,
  some, arith, ◌==◌, ℤ, failed, Ends, Ptr, null, valid, is_null, Bool-cases, if◌then◌else◌,
}
use canon_r.Usb.{
  Usb, Endpoint, EndpointKind, int_in, bulk_in, bulk_out, note_endpoint, find_endpoints,
  ep_int_in_address, ep_bulk_in_address, ep_bulk_out_address, UrbAnswers, UsbEnv, start_interrupts,
  size_packets, usb_init_endpoints, larger, set_usb,
}

-- The endpoint that a search on its own finds: the last one of the kind and address.
abbrev is_kind : EndpointKind → EndpointKind → Bool
is_kind int_in int_in = true
is_kind bulk_in bulk_in = true
is_kind bulk_out bulk_out = true
is_kind _ _ = false

pub last_match : EndpointKind → ℕ → List Endpoint → Option Endpoint → Option Endpoint
last_match k a [] found = found
last_match k a (ep ∷ eps) found =
    last_match k a eps (if is_kind k ep.kind && ep.address == a then some ep else found)

-- What one round of the loop takes over.
note_endpoint-parts :
    (ep : Endpoint) (u : Usb)
    → note_endpoint ep u ≡ record u {
      ep_int_in =
          if is_kind int_in ep.kind && ep.address == ep_int_in_address
          then some ep
          else u.ep_int_in;
      ep_bulk_in =
          if is_kind bulk_in ep.kind && ep.address == ep_bulk_in_address
          then some ep
          else u.ep_bulk_in;
      ep_bulk_out =
          if is_kind bulk_out ep.kind && ep.address == ep_bulk_out_address
          then some ep
          else u.ep_bulk_out;
    }
unfolding note_endpoint
note_endpoint-parts ep u = ground arith

abbrev searched : List Endpoint → Usb → Usb
searched eps u = record u {
  ep_int_in = last_match int_in ep_int_in_address eps u.ep_int_in;
  ep_bulk_in = last_match bulk_in ep_bulk_in_address eps u.ep_bulk_in;
  ep_bulk_out = last_match bulk_out ep_bulk_out_address eps u.ep_bulk_out;
}

-- The one loop over the endpoints finds what three searches would, one for each that is needed,
-- and leaves the rest of the structure alone.
pub find_endpoints-last_match :
    (eps : List Endpoint) (u : Usb)
    → find_endpoints eps u ≡ record u {
      ep_int_in = last_match int_in ep_int_in_address eps u.ep_int_in;
      ep_bulk_in = last_match bulk_in ep_bulk_in_address eps u.ep_bulk_in;
      ep_bulk_out = last_match bulk_out ep_bulk_out_address eps u.ep_bulk_out;
    }
unfolding find_endpoints last_match
find_endpoints-last_match [] u = refl
find_endpoints-last_match (ep ∷ eps) u =
    find_endpoints-last_match eps (note_endpoint ep u)
    ∙ ap (searched eps) (note_endpoint-parts ep u)

-- The interrupt URB and its buffer are there and at work, or neither is.
pub record Interrupts (on? : Ptr) (u : Usb) : Type 0 where
  pub urb : u.int_urb ≡ on?
  pub buffer : u.int_buffer ≡ on?
  pub submitted : u.int_submitted ≡ not (is_null on?)

-- The structure has the three endpoints.
pub record Found (u : Usb) : Type 0 where
  pub int_in : is_some u.ep_int_in ≡ true
  pub bulk_in : is_some u.ep_bulk_in ≡ true
  pub bulk_out : is_some u.ep_bulk_out ≡ true

module _ {K : Type 0} where
  -- Success comes with all endpoints and a submitted URB, and a failure with no URB left over.
  -- Of what lies behind the transport only the structure `u0` has changed, and not its references.
  abbrev pub Started : Usb → UsbEnv K → ℤ → UsbEnv K → Type 0
  Started u0 e0 ret e =
      (u : Usb) × (e ≡ set_usb u e0)
      × (u.udev_held ≡ u0.udev_held)
      × (u.intf_held ≡ u0.intf_held)
      × (if failed ret then Interrupts null u else (Found u × Interrupts valid u))

  start-Started :
      (urb buffer : Ptr) (submit : ℤ) (u : Usb) (e : UsbEnv K)
      → Found u
      → Interrupts null u
      → Ends
          (Started u e)
          (start_interrupts (record { urb = urb; buffer = buffer; submit = submit }) (set_usb u e))
  unfolding start_interrupts
  start-Started null buffer submit u e f i =
      (_, refl, refl, refl, record { urb = refl; buffer = i.buffer; submitted = i.submitted })
  start-Started valid null submit u e f i =
      (_, refl, refl, refl, record { urb = refl; buffer = refl; submitted = i.submitted })
  start-Started valid valid submit u e f i = elim (Bool-cases (failed submit)) [
    | inl h ↦
        rw (h, Ends)
          (
            _,
            refl,
            refl,
            refl,
            rw h (record { urb = refl; buffer = refl; submitted = i.submitted }),
          )
    | inr h ↦
        rw (h, Ends)
          (
            _,
            refl,
            refl,
            refl,
            (
              record { int_in = f.int_in; bulk_in = f.bulk_in; bulk_out = f.bulk_out },
              record { urb = refl; buffer = refl; submitted = refl },
            ),
          )
  ]

  size-Started :
      (a : UrbAnswers) (x y z : Option Endpoint) (u : Usb) (e : UsbEnv K)
      → u.ep_int_in ≡ x
      → u.ep_bulk_in ≡ y
      → u.ep_bulk_out ≡ z
      → Interrupts null u
      → Ends (Started u e) (size_packets a x y z (set_usb u e))
  unfolding size_packets
  size-Started a (some x) (some y) (some z) u e hx hy hz i =
      start-Started a.urb a.buffer a.submit (record u { max_packet_size = larger y.maxp z.maxp }) e
        (record { int_in = ap is_some hx; bulk_in = ap is_some hy; bulk_out = ap is_some hz })
        (record { urb = i.urb; buffer = i.buffer; submitted = i.submitted })
  size-Started a _ _ _ u e hx hy hz i = (u, refl, refl, refl, i)

  -- On a USB structure without an URB, whatever the allocators and usbcore answer, setting up
  -- the endpoints ends; it succeeds only with all three endpoints and the interrupt URB
  -- submitted, and on each failure the URB and its buffer have been given back.
  pub usb_init_endpoints-Started :
      (a : UrbAnswers) (eps : List Endpoint) (u : Usb) (e : UsbEnv K)
      → e.usb ≡ some u
      → Interrupts null u
      → Ends (Started u e) (usb_init_endpoints a eps e)
  unfolding usb_init_endpoints
  usb_init_endpoints-Started a eps u e p i =
      let same : e ≡ set_usb u e = λ j. record e { usb = p j } in
      rw (same, find_endpoints-last_match eps u, usb_init_endpoints)
        (size-Started a _ _ _ (searched eps u) e refl refl refl
          (record { urb = i.urb; buffer = i.buffer; submitted = i.submitted }))

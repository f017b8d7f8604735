-- ===== src/Usb.antt =====
-- The USB transport of drivers/core/canon-r5-usb.c: endpoints, bulk transfers and the interrupt URB.
-- What usbcore and the allocators answer is an argument, or an operation of `UsbKernel`.
pub mod Transfer
pub mod Endpoints
pub mod Probe
pub mod Attach
pub mod Disconnect
use canon_r.Prelude.{
  ℕ, ◌+◌, ◌-◌, ◌≤◌, ◌&&◌, List, [], ◌∷◌, Bool, true, false, Option, none, some, length, ltb, ◌==◌,
  if◌then◌else◌, ℤ, pos, failed, success, einval, enodev, enomem, M, ◌>>=◌, ◌>>◌, return, get,
  modify, crash, null_deref, Ptr, null, valid, is_null,
}
use canon_r.Wire.{Byte}
use canon_r.Ptp.{TransportOps}

abbrev pub ep_int_in_address : ℕ
ep_int_in_address = 0x81

abbrev pub ep_bulk_in_address : ℕ
ep_bulk_in_address = 0x82

abbrev pub ep_bulk_out_address : ℕ
ep_bulk_out_address = 0x03

-- Which of usb_endpoint_is_int_in, usb_endpoint_is_bulk_in and usb_endpoint_is_bulk_out holds.
pub data EndpointKind : Type 0 where
  int_in bulk_in bulk_out other_kind : EndpointKind

-- `struct usb_endpoint_descriptor`, as far as the driver reads it.
pub record Endpoint : Type 0 where
  pub kind : EndpointKind
  pub address : ℕ
  pub maxp : ℕ

-- `struct canon_r5_usb`. A flag stands for a reference that is held or an URB that is submitted.
pub record Usb : Type 0 where
  pub udev_held : Bool
  pub intf_held : Bool
  pub ep_int_in : Option Endpoint
  pub ep_bulk_in : Option Endpoint
  pub ep_bulk_out : Option Endpoint
  pub int_urb : Ptr
  pub int_submitted : Bool
  pub int_buffer : Ptr
  pub max_packet_size : ℕ

abbrev pub zeroed_usb : Usb
zeroed_usb = record {
  udev_held = false;
  intf_held = false;
  ep_int_in = none;
  ep_bulk_in = none;
  ep_bulk_out = none;
  int_urb = null;
  int_submitted = false;
  int_buffer = null;
  max_packet_size = 0;
}

-- The kernel's side of a transfer: kmalloc, and usb_bulk_msg to and from an endpoint. A transfer
-- from the device gives no more bytes than were asked for.
pub record UsbKernel (K : Type 0) : Type 0 where
  pub kmalloc : ℕ → K → Bool × K
  pub bulk_out_msg : Endpoint → List Byte → K → ℤ × K
  pub bulk_in_msg : Endpoint → ℕ → K → ℤ × List ℕ × K
  pub bulk_in_fits : (ep : Endpoint) (len : ℕ) (s : K) → length (bulk_in_msg ep len s).1 ≤ len

-- What lies behind the PTP layer's transport: `dev->usb`, the interface's data pointer, the number
-- of transfer buffers that are allocated, and the kernel.
pub record UsbEnv (K : Type 0) : Type 0 where
  pub usb : Option Usb
  pub intfdata : Ptr
  pub buffers : ℕ
  pub kernel : K

module _ {K : Type 0} where
  -- A read of a member of `dev->usb`.
  abbrev pub with_usb : {A : Type 0} → (Usb → M (UsbEnv K) A) → M (UsbEnv K) A
  with_usb f e = elim e.usb [ none ↦ crash null_deref e | some u ↦ f u e ]

  abbrev pub set_usb : Usb → UsbEnv K → UsbEnv K
  set_usb u e = record e { usb = some u }

  abbrev pub on_usb : (Usb → Usb) → M (UsbEnv K) (Unit {0})
  on_usb f = with_usb (λ u. modify (set_usb (f u)))

  -- kmalloc of a transfer buffer, and kfree of it.
  abbrev pub alloc_buffer : UsbKernel K → ℕ → M (UsbEnv K) Bool
  alloc_buffer k len e =
      let (got, s) = k.kmalloc len e.kernel in
      if got
      then return true (record e { buffers = e.buffers + 1; kernel = s })
      else return false (record e { kernel = s })

  abbrev pub free_buffer : M (UsbEnv K) (Unit {0})
  free_buffer = modify (λ e. record e { buffers = e.buffers - 1 })

  abbrev pub send_msg : UsbKernel K → Endpoint → List Byte → M (UsbEnv K) ℤ
  send_msg k ep bs e =
      let (ret, s) = k.bulk_out_msg ep bs e.kernel in return ret (record e { kernel = s })

  abbrev pub receive_msg : UsbKernel K → Endpoint → ℕ → M (UsbEnv K) (ℤ × List ℕ)
  receive_msg k ep len e =
      let (ret, bs, s) = k.bulk_in_msg ep len e.kernel in return (ret, bs) (record e { kernel = s })

  send_through : UsbKernel K → List Byte → Option Endpoint → M (UsbEnv K) ℤ
  send_through k bs none = return enodev
  send_through k bs (some ep) = do
    got ← alloc_buffer k (length bs)
    if got then (do ret ← send_msg k ep bs; free_buffer; return ret) else return enomem

  -- The data is NULL, or the `len` bytes to send.
  unfoldable pub usb_bulk_send : UsbKernel K → Ptr → Option (List Byte) → M (UsbEnv K) ℤ
  unfolding send_through
  usb_bulk_send k null bytes = return einval
  usb_bulk_send k valid none = return einval
  usb_bulk_send k valid (some []) = return einval
  usb_bulk_send k valid (some (b ∷ bs)) = with_usb (λ u. send_through k (b ∷ bs) u.ep_bulk_out)

  receive_through : UsbKernel K → ℕ → Option Endpoint → M (UsbEnv K) (ℤ × List ℕ)
  receive_through k len none = return (enodev, [])
  receive_through k len (some ep) = do
    got ← alloc_buffer k len
    if got
        then (do
          r ← receive_msg k ep len
          free_buffer
          return (r.0, if failed r.0 then [] else r.1))
        else return (enomem, [])

  -- What is copied to the caller's buffer; its length is `*actual_len`.
  unfoldable pub usb_bulk_receive : UsbKernel K → Ptr → Ptr → ℕ → M (UsbEnv K) (ℤ × List ℕ)
  unfolding receive_through
  usb_bulk_receive k dev data_ptr len =
      if is_null dev
      then return (einval, [])
      else if is_null data_ptr
      then return (einval, [])
      else if len == 0
      then return (einval, [])
      else with_usb (λ u. receive_through k len u.ep_bulk_in)

  abbrev pub usb_transport_ops : UsbKernel K → TransportOps (UsbEnv K)
  usb_transport_ops k = record {
    bulk_send = some (λ bs. usb_bulk_send k valid (some bs));
    bulk_receive = some (λ len. usb_bulk_receive k valid valid len);
  }

-- The loop over the endpoints of the interface: a later match replaces an earlier one.
unfoldable pub note_endpoint : Endpoint → Usb → Usb
note_endpoint ep u = elim ep.kind [
  | int_in ↦ if ep.address == ep_int_in_address then record u { ep_int_in = some ep } else u
  | bulk_in ↦ if ep.address == ep_bulk_in_address then record u { ep_bulk_in = some ep } else u
  | bulk_out ↦ if ep.address == ep_bulk_out_address then record u { ep_bulk_out = some ep } else u
  | other_kind ↦ u
]

unfoldable pub find_endpoints : List Endpoint → Usb → Usb
find_endpoints [] u = u
find_endpoints (ep ∷ eps) u = find_endpoints eps (note_endpoint ep u)

-- What usb_alloc_urb, kmalloc and usb_submit_urb answer for the interrupt URB.
pub record UrbAnswers : Type 0 where
  pub urb : Ptr
  pub buffer : Ptr
  pub submit : ℤ

-- `max_t(size_t, ...)`.
abbrev pub larger : ℕ → ℕ → ℕ
larger a b = if ltb b a then a else b

module _ {K : Type 0} where
  start_interrupts : UrbAnswers → M (UsbEnv K) ℤ
  start_interrupts a = do
    on_usb (λ u. record u { int_urb = a.urb })
    if is_null a.urb then return enomem else do
      on_usb (λ u. record u { int_buffer = a.buffer })
      if is_null a.buffer
          then (do on_usb (λ u. record u { int_urb = null }); return enomem)
          else if failed a.submit
          then (do on_usb (λ u. record u { int_buffer = null; int_urb = null }); return a.submit)
          else do on_usb (λ u. record u { int_submitted = true }); return success

  size_packets : UrbAnswers → Option Endpoint → Option Endpoint → Option Endpoint → M (UsbEnv K) ℤ
  unfolding start_interrupts
  size_packets a (some i) (some ep_in) (some ep_out) = do
    on_usb (λ u. record u { max_packet_size = larger ep_in.maxp ep_out.maxp })
    start_interrupts a
  size_packets a _ _ _ = return enodev

  unfoldable pub usb_init_endpoints : UrbAnswers → List Endpoint → M (UsbEnv K) ℤ
  unfolding size_packets
  usb_init_endpoints a eps = do
    on_usb (find_endpoints eps)
    with_usb (λ u. size_packets a u.ep_int_in u.ep_bulk_in u.ep_bulk_out)

  unfoldable pub usb_cleanup_endpoints : M (UsbEnv K) (Unit {0})
  usb_cleanup_endpoints = with_usb λ u. do
    (if is_null u.int_urb
        then return tt
        else on_usb (λ v. record v { int_submitted = false; int_urb = null }))
    if is_null u.int_buffer then return tt else on_usb (λ v. record v { int_buffer = null })

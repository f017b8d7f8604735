-- ===== src/Examples/Data.antt =====
-- A camera, its devices and a kernel, for the examples.
use canon_r.Prelude.{
  ℕ, ◌+◌, ◌%◌, ◌≤◌, ◌≡◌, refl, subst, List, [], ◌∷◌, some, some-injective, length, take,
  length-take, arith, true, false, ℤ, success, M, done, Ends, null, valid,
}
use canon_r.Wire.{Byte, PtpContainer}
use canon_r.Device.{Core, Device, connected}
use canon_r.Core.{no_drivers}
use canon_r.Ptp.{TransportOps}
use canon_r.Ptp.Transport.{IsTransport}
use canon_r.Ptp.Requests.{SessionInv}
use canon_r.Ptp.Sign.{IsSigned, Partly, Sign, not_positive}
use canon_r.Usb.{Endpoint, int_in, bulk_in, bulk_out, Usb, zeroed_usb, UsbKernel, UsbEnv}

-- What was sent, the last packet first.
abbrev pub Sent : Type 0
Sent = List (List Byte)

abbrev pub record_packet : List Byte → M Sent ℤ
record_packet bs e = done success (bs ∷ e)

abbrev pub answer_with : List ℕ → ℕ → M Sent (ℤ × List ℕ)
answer_with bytes len e = done (success, take len bytes) e

-- A camera that answers every command by the same bytes.
abbrev pub camera : List ℕ → TransportOps Sent
camera bytes = record { bulk_send = some record_packet; bulk_receive = some (answer_with bytes) }

abbrev pub Any : Sent → Type 0
Any e = Unit {0}

pub camera-IsTransport : (bytes : List ℕ) → IsTransport Any (camera bytes)
camera-IsTransport bytes = record {
  send_ends = λ f p bs e r. subst (λ g. Ends (λ _ e'. Any e') (g bs e)) (some-injective _ _ p) tt;
  receive_ends = λ f p len e r.
      subst (λ g. Ends (λ a e'. (length a.1 ≤ len) × Any e') (g len e)) (some-injective _ _ p)
        (length-take len bytes, tt);
}

pub camera-IsSigned : (bytes : List ℕ) → IsSigned (camera bytes)
camera-IsSigned bytes = record {
  send_sign = λ f p bs e. subst (λ g. Partly Sign (g bs e)) (some-injective _ _ p) refl;
  receive_sign = λ f p len e.
      subst (λ g. Partly (λ r e'. not_positive r.0 ≡ true) (g len e)) (some-injective _ _ p) refl;
}

-- PTP_RC_OK in answer to transaction 1, and a busy camera's answer to it.
abbrev pub ok_answer : PtpContainer
ok_answer = record { length = 12; type = 3; code = 0x2001; trans_id = 1; params = [] }

abbrev pub busy_answer : PtpContainer
busy_answer = record { length = 12; type = 3; code = 0x2019; trans_id = 1; params = [] }

abbrev pub late_answer : PtpContainer
late_answer = record { length = 12; type = 3; code = 0x2001; trans_id = 7; params = [] }

abbrev pub ok_bytes : List ℕ
ok_bytes = 12 ∷ 0 ∷ 0 ∷ 0 ∷ 3 ∷ 0 ∷ 1 ∷ 32 ∷ 1 ∷ 0 ∷ 0 ∷ 0 ∷ []

abbrev pub busy_bytes : List ℕ
busy_bytes = 12 ∷ 0 ∷ 0 ∷ 0 ∷ 3 ∷ 0 ∷ 25 ∷ 32 ∷ 1 ∷ 0 ∷ 0 ∷ 0 ∷ []

abbrev pub late_bytes : List ℕ
late_bytes = 12 ∷ 0 ∷ 0 ∷ 0 ∷ 3 ∷ 0 ∷ 1 ∷ 32 ∷ 7 ∷ 0 ∷ 0 ∷ 0 ∷ []

-- A device with its transport, whose session is closed, and the same with the session open.
abbrev pub closed_device : Device
closed_device = record {
  kref = 2;
  transport_ops = valid;
  ptp = record {
    lock = false;
    session_id = 0;
    transaction_id = 1;
    session_open = false;
    event_wq = valid;
    event_queued = true;
  };
  state = connected;
  state_lock = false;
  drivers = no_drivers;
}

abbrev pub open_device : Device
open_device = record closed_device {
  ptp = record (closed_device.ptp) { session_id = 1; session_open = true };
}

abbrev pub offline_device : Device
offline_device = record open_device { transport_ops = null }

pub closed_device-Inv : SessionInv closed_device
closed_device-Inv = record {
  idle = refl;
  closed = λ h. refl;
  opened = λ h. cc;
  counter = omega arith;
}

pub open_device-Inv : SessionInv open_device
open_device-Inv = record {
  idle = refl;
  closed = λ h. cc;
  opened = λ h. refl;
  counter = omega arith;
}

abbrev pub on_wire : Device → Core Sent
on_wire d = record { dev = d; env = [] }

-- The kernel always has memory, and every transfer succeeds; it counts the transfers.
abbrev pub kernel : UsbKernel ℕ
kernel = record {
  kmalloc = λ n s. (true, s);
  bulk_out_msg = λ ep bs s. (success, s + 1);
  bulk_in_msg = λ ep len s. (success, [], s + 1);
  bulk_in_fits = λ ep len s. omega arith;
}

-- The endpoints of the camera.
abbrev pub r5_endpoints : List Endpoint
r5_endpoints =
    record { kind = int_in; address = 0x81; maxp = 64 }
    ∷ record { kind = bulk_in; address = 0x82; maxp = 512 }
    ∷ record { kind = bulk_out; address = 0x03; maxp = 512 }
    ∷ []

abbrev pub plugged_usb : Usb
plugged_usb = record zeroed_usb {
  udev_held = true;
  intf_held = true;
  ep_int_in = some (record { kind = int_in; address = 0x81; maxp = 64 });
  ep_bulk_in = some (record { kind = bulk_in; address = 0x82; maxp = 512 });
  ep_bulk_out = some (record { kind = bulk_out; address = 0x03; maxp = 512 });
  int_urb = valid;
  int_buffer = valid;
  int_submitted = true;
  max_packet_size = 512;
}

abbrev pub plugged : UsbEnv ℕ
plugged = record { usb = some plugged_usb; intfdata = valid; buffers = 0; kernel = 0 }

-- A camera that answers PTP_RC_OK to one transaction after the other; it counts them.
abbrev pub counting_camera : TransportOps ℕ
counting_camera = record {
  bulk_send = some (λ bs e. done success e);
  bulk_receive = some (λ len e.
      done (success, 12 ∷ 0 ∷ 0 ∷ 0 ∷ 3 ∷ 0 ∷ 1 ∷ 32 ∷ (e % 256) ∷ 0 ∷ 0 ∷ 0 ∷ []) (e + 1));
}

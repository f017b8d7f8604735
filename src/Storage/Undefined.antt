-- ===== src/Storage/Undefined.antt =====
-- What the buffers for answers of drivers/storage/canon-r5-storage.c become on the wire.
use canon_r.Prelude.{
  ℕ, zero, suc, ◌^◌, ◌≤◌, ◌<◌, ◌≡◌, refl, ap, inl, true, false, List, ◌∷◌, ◌++◌, none, some, length,
  replicate, take, length-replicate, arith, ◌==◌, ℤ, success, eio, M, done, valid, if◌then◌else◌,
}
use canon_r.Wire.{Byte, PtpContainer, header, container_response, sizeof_container}
use canon_r.Device.{Core}
use canon_r.Ptp.{TransportOps, next_transaction, rc_ok}
use canon_r.Ptp.Answer.{wire_command}
use canon_r.Ptp.DataPhase.{wire_data_header, ptp_command-data_answer}
use canon_r.Storage.Objects.{stack_buffer, with_response}

take-replicate : (n : ℕ) (b : Byte) → take n (replicate n b) ≡ replicate n b
take-replicate zero b = refl
take-replicate (suc n) b = ap (λ bs. b ∷ bs) (take-replicate n b)

module _ {E : Type 0} (ops : TransportOps E) where
  -- On a device with a free mutex, an open session and a registered transport whose sends and
  -- receive work, a storage command with a buffer of at least one byte for the answer sends the
  -- camera, after the command and a data header, the whole of that buffer, none of whose bytes
  -- the program has written. What the camera then says it returns as any command does.
  pub with_response-undefined :
      (send : List Byte → M E ℤ) (receive : ℕ → M E (ℤ × List ℕ)) (code : ℕ) (ps : List ℕ) (n : ℕ)
      (resp : PtpContainer) (rest : List ℕ) (c : Core E) (e1 e2 e3 e4 : E)
      → c.dev.ptp.lock ≡ false
      → c.dev.ptp.session_open ≡ true
      → c.dev.transport_ops ≡ valid
      → ops.bulk_send ≡ some send
      → ops.bulk_receive ≡ some receive
      → length ps ≤ 5
      → send (wire_command code c.dev.ptp.transaction_id ps) c.env ≡ done success e1
      → send (wire_data_header code c.dev.ptp.transaction_id (suc n)) e1 ≡ done success e2
      → send (replicate (suc n) none) e2 ≡ done success e3
      → receive sizeof_container e3 ≡ done (success, header resp ++ rest) e4
      → length rest ≤ 20
      → resp.type ≡ container_response
      → resp.code < 2 ^ 16
      → resp.trans_id ≡ c.dev.ptp.transaction_id
      → c.dev.ptp.transaction_id < 2 ^ 32
      → with_response ops code ps (suc n) c
        ≡ done
            (if resp.code == rc_ok then success else eio, some resp.code)
            (record (next_transaction c) { env = e4 })
  unfolding with_response
  with_response-undefined send receive code ps n resp rest c e1 e2 e3 e4 hl ha hv hs hr hp h1 h2 h3
        h4 hn ht hc hi hw =
      ptp_command-data_answer ops send receive code ps (stack_buffer (suc n)) n resp rest c e1 e2 e3
        e4 hl (inl ha) hv hs hr hp (omega (arith, length-replicate {A = Byte} (suc n) none)) h1 h2
        (rw (take-replicate (suc n) none) h3) h4 hn ht hc hi hw

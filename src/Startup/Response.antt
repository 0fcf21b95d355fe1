-- ===== src/Startup/Response.antt =====
-- The response of the register server as Register of src/peer_client.cpp receives it.
use p2p_file_sharing_system.Prelude.{
  ℕ, zero, suc, ◌≤◌, ◌≡◌, refl, ap, ◌∙◌, true, false, Option, some, [], ◌∷◌, arith, ltb,
  if◌then◌else◌, Bool-cases, inl, inr, ℤ, pos, length, take, take-All, ◌≢◌,
}
use p2p_file_sharing_system.Result.{Result, ok, fault, buffer_overflow, ◌>>=◌, >>=-assoc}
use p2p_file_sharing_system.Text.{Bytes, Lacks}
use p2p_file_sharing_system.Ids.{PeerId, msg_buf_size}
use p2p_file_sharing_system.Buffer.{fill_buffer, c_string}
use p2p_file_sharing_system.Buffer.RoundTrip.{c_string-fill_buffer}
use p2p_file_sharing_system.Transport.{is_error}
use p2p_file_sharing_system.Peer.{Peer}
use p2p_file_sharing_system.Register.{handle_register_response}
use p2p_file_sharing_system.Startup.{register_with}

take_whole : (n : ℕ) (s : Bytes) → length s ≤ n → take n s ≡ s
take_whole zero [] h = refl
take_whole zero (c ∷ s) h = absurd (omega arith)
take_whole (suc n) [] h = refl
take_whole (suc n) (c ∷ s) h = ap (λ t. c ∷ t) (take_whole n s (omega arith))

length-take_full : (n : ℕ) (s : Bytes) → n ≤ length s → length (take n s) ≡ n
length-take_full zero s h = refl
length-take_full (suc n) [] h = absurd (omega arith)
length-take_full (suc n) (c ∷ s) h = omega (arith, length-take_full n s (omega arith))

no_error : (n : ℕ) → is_error (pos n) ≡ false
no_error n = ground arith

-- What is read of a text of which the buffer takes as much as it holds.
read_part :
    (text : Bytes) (k : Bytes → Result Peer)
    → let buffer = take msg_buf_size text in
      ((if ltb (length buffer) msg_buf_size then ok buffer else fault buffer_overflow) >>= k)
      ≡ (if ltb (length text) msg_buf_size then k text else fault buffer_overflow)
read_part text k = elim (Bool-cases (ltb (length text) msg_buf_size)) [
  | inl short ↦ rw (take_whole msg_buf_size text (ground arith), short) refl
  | inr long ↦ rw (length-take_full msg_buf_size text (ground arith), long) refl
]

-- Where connect() and send() succeed, a response of the register server without a zero byte that has
-- come when recv() is called is handled as it is if it is shorter than the buffer; a longer one, or one
-- of just the size, fills the buffer, and the reading of it goes on behind its end.
pub register_with_lem :
    (connect : PeerId → Bytes → ℤ → Option ℕ) (sent : ℕ) (response : Bytes) (s : Peer)
    → Lacks 0 response
    → register_with connect
        (record { connected = true; sent = pos sent; arrived = some response })
        s
      ≡ (if ltb (length response) msg_buf_size
          then handle_register_response connect response s
          else fault buffer_overflow)
unfolding register_with
register_with_lem connect sent response s no_zero =
    let text = take msg_buf_size response in
    let k = λ (r : Bytes). handle_register_response connect r s in
    rw (no_error sent) (
      >>=-assoc (fill_buffer text) c_string k
      ∙ ap (λ m. m >>= k)
          (c_string-fill_buffer text (take-All (λ c. c ≢ 0) msg_buf_size response no_zero))
      ∙ read_part response k)

-- ===== src/Buffer/RoundTrip.antt =====
-- Messages of src/peer_client.cpp through a buffer, to src/peer_server.cpp.
use p2p_file_sharing_system.Prelude.{
  ℕ, zero, suc, ◌-◌, ◌<◌, ◌≡◌, refl, [], ◌∷◌, ◌++◌, append-nil, arith, ltb, if◌then◌else◌, length,
  length-append, replicate,
}
use p2p_file_sharing_system.Result.{ok, fault, buffer_overflow, ◌>>=◌}
use p2p_file_sharing_system.Text.{Bytes, Lacks}
use p2p_file_sharing_system.Ids.{msg_buf_size}
use p2p_file_sharing_system.Buffer.{fill_buffer, c_string}

length-replicate : (n a : ℕ) → length (replicate n a) ≡ n
length-replicate zero a = refl
length-replicate (suc n) a = omega (arith, length-replicate n a)

c_string-zero : (s rest : Bytes) → Lacks 0 s → c_string (s ++ 0 ∷ rest) ≡ ok s
unfolding c_string
c_string-zero [] rest h = refl
c_string-zero (c ∷ s) rest (h, hs) = ground (arith, c_string-zero s rest hs)

c_string-unterminated : (s : Bytes) → Lacks 0 s → c_string s ≡ fault buffer_overflow
unfolding c_string
c_string-unterminated [] h = refl
c_string-unterminated (c ∷ s) (h, hs) = ground (arith, c_string-unterminated s hs)

c_string-padded : (s : Bytes) (n : ℕ) → Lacks 0 s → 0 < n → c_string (s ++ replicate n 0) ≡ ok s
c_string-padded s zero h lt = absurd (omega arith)
c_string-padded s (suc n) h lt = c_string-zero s (replicate n 0) h

c_string-unpadded :
    (s : Bytes) (n : ℕ) → Lacks 0 s → n ≡ 0 → c_string (s ++ replicate n 0) ≡ fault buffer_overflow
c_string-unpadded s zero h e = rw append-nil (c_string-unterminated s h)
c_string-unpadded s (suc n) h e = absurd (omega arith)

-- A message with no zero byte that is shorter than the buffer reaches the receiver as it was sent; one
-- that fills the buffer is read past the end of the receiver's, and a longer one is written past the
-- end of the sender's.
pub c_string-fill_buffer :
    (m : Bytes)
    → Lacks 0 m
    → (fill_buffer m >>= c_string)
      ≡ (if ltb (length m) msg_buf_size then ok m else fault buffer_overflow)
unfolding fill_buffer
c_string-fill_buffer m h =
    let pad = msg_buf_size - length m in
    ground (arith, c_string-padded m pad h, c_string-unpadded m pad h)

-- Every buffer that is sent has the full size.
pub length-fill_buffer : (m b : Bytes) → fill_buffer m ≡ ok b → length b ≡ msg_buf_size
unfolding fill_buffer
length-fill_buffer m b e =
    let pad = msg_buf_size - length m in
    ground (arith, length-append m (replicate pad 0), length-replicate pad 0)

-- ===== src/Ffi/Callback/Laws.antt =====
-- lib/endb_lib/src/lib.rs: what the engine gets back through the callbacks.
use endb.Prelude.{
  ℕ, zero, suc, ◌-◌, ◌≤◌, true, [], ◌∷◌, ◌++◌, ◌≡◌, refl, ap, arith, length, take, length-append,
}
use endb.Prelude.Text.{Str}
use endb.Server.Http.{Bytes}
use endb.Ffi.Callback.{
  without_nul, callback, string_callback, Codecs, decoded, on_success_bytes, endb_base64_encode,
  endb_base64_decode, endb_memcpy, drop_bytes, answer_decoded,
}

-- Base64 has no NUL, and what was encoded is decoded.
record Base64Laws (lib : Codecs) : Type 0 where
  encode_plain : (b : Bytes) → without_nul (lib.encode b) ≡ true
  decode-encode : (b : Bytes) → lib.decode (lib.encode b) ≡ decoded b

-- A buffer comes back from Base64, and its text is handed over without a panic, if the codec keeps
-- the stated laws.
endb_base64_decode-encode :
    (lib : Codecs) (buffer : Bytes)
    → Base64Laws lib
    → (text : Str) × (endb_base64_encode lib buffer ≡ callback text)
      × (endb_base64_decode lib text ≡ on_success_bytes buffer)
unfolding endb_base64_encode endb_base64_decode string_callback
endb_base64_decode-encode lib buffer laws = (
  lib.encode buffer,
  simp (laws.encode_plain buffer) refl,
  ap answer_decoded (laws.decode-encode buffer),
)

length-take : (n : ℕ) (bs : Bytes) → n ≤ length bs → length (take n bs) ≡ n
length-take zero bs h = refl
length-take (suc n) [] h = omega (arith, h)
length-take (suc n) (b ∷ bs) h = omega (arith, length-take n bs (omega (arith, h)))

length-drop_bytes : (n : ℕ) (bs : Bytes) → length (drop_bytes n bs) ≡ length bs - n
length-drop_bytes zero bs = omega arith
length-drop_bytes (suc n) [] = omega arith
length-drop_bytes (suc n) (b ∷ bs) = omega (arith, length-drop_bytes n bs)

take-taken : (n : ℕ) (bs cs : Bytes) → n ≤ length bs → take n (take n bs ++ cs) ≡ take n bs
take-taken zero bs cs h = refl
take-taken (suc n) [] cs h = absurd (omega (arith, h))
take-taken (suc n) (b ∷ bs) cs h = ap (λ l. b ∷ l) (take-taken n bs cs (omega (arith, h)))

drop_bytes-taken : (n : ℕ) (bs cs : Bytes) → n ≤ length bs → drop_bytes n (take n bs ++ cs) ≡ cs
drop_bytes-taken zero bs cs h = refl
drop_bytes-taken (suc n) [] cs h = absurd (omega (arith, h))
drop_bytes-taken (suc n) (b ∷ bs) cs h = drop_bytes-taken n bs cs (omega (arith, h))

-- A copy of bytes that both buffers have changes just those: the destination keeps its length, begins
-- with the bytes of the source and goes on as it was.
endb_memcpy-copies :
    (dest_buffer src_buffer : Bytes) (n : ℕ)
    → n ≤ length dest_buffer
    → n ≤ length src_buffer
    → (length (endb_memcpy dest_buffer src_buffer n) ≡ length dest_buffer)
      × (take n (endb_memcpy dest_buffer src_buffer n) ≡ take n src_buffer)
      × (drop_bytes n (endb_memcpy dest_buffer src_buffer n) ≡ drop_bytes n dest_buffer)
unfolding endb_memcpy
endb_memcpy-copies dest_buffer src_buffer n d s = (
  omega (
    arith,
    length-append (take n src_buffer) (drop_bytes n dest_buffer),
    length-take n src_buffer s,
    length-drop_bytes n dest_buffer,
  ),
  take-taken n src_buffer _ s,
  drop_bytes-taken n src_buffer _ s,
)

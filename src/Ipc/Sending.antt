-- ===== src/Ipc/Sending.antt =====
-- What reaches the client through `send_response` of src/daemon/IpcServer.cpp.
use ahk_unix.Base.{
  ℕ, ◌+◌, ◌<◌, ◌≤◌, true, List, [], ◌∷◌, ◌++◌, ◌≡◌, refl, ap, ◌∙◌, inl, inr, arith, append_assoc,
  ◌==◌, Bytes, length, take, drop, take-append-drop, length-drop, Bool-cases,
}
use ahk_unix.Ipc.Transport.{Send, sent, send_interrupted, full, send_failed, polled, send_response}

-- What reaches the client is the beginning of the reply.
pub send_response-prefix :
    (sends : List Send) (response : Bytes)
    → (rest : Bytes) × (send_response sends response ++ rest ≡ response)
unfolding send_response
send_response-prefix [] response = (response, refl)
send_response-prefix (send ∷ sends) [] = ([], refl)
send_response-prefix (sent n ∷ sends) (c ∷ response) = elim (Bool-cases (n == 0)) [
  | inl e ↦ (c ∷ response, rw (e, send_response))
  | inr e ↦
      let (rest, k) = send_response-prefix sends (drop n (c ∷ response)) in
      (
        rest,
        rw (e, send_response)
            (append_assoc (take n (c ∷ response)) (send_response sends (drop n (c ∷ response))) rest
              ∙ ap (λ t. take n (c ∷ response) ++ t) k
              ∙ take-append-drop n (c ∷ response)),
      )
]
send_response-prefix (send_interrupted ∷ sends) (c ∷ response) =
    send_response-prefix sends (c ∷ response)
send_response-prefix (full poll ∷ sends) (c ∷ response) = elim (Bool-cases (polled poll)) [
  | inl e ↦
      let (rest, k) = send_response-prefix sends (c ∷ response) in (rest, rw (e, send_response) k)
  | inr e ↦ (c ∷ response, rw (e, send_response))
]
send_response-prefix (send_failed ∷ sends) (c ∷ response) = (c ∷ response, refl)

-- No call fails: each takes a byte at least, is interrupted, or finds the socket full and waits.
abbrev pub Works : Send → Type 0
Works (sent n) = 0 < n
Works send_interrupted = Unit
Works (full poll) = polled poll ≡ true
Works send_failed = ⊥

abbrev pub AllWork : List Send → Type 0
AllWork [] = Unit
AllWork (send ∷ sends) = Works send × AllWork sends

-- The bytes that the calls take together.
abbrev pub taken : List Send → ℕ
taken [] = 0
taken (sent n ∷ sends) = n + taken sends
taken (_ ∷ sends) = taken sends

-- When no call fails and they take as many bytes as the reply has, the client receives the whole reply.
pub send_response-AllWork :
    (sends : List Send) (response : Bytes)
    → AllWork sends
    → length response ≤ taken sends
    → send_response sends response ≡ response
unfolding send_response
send_response-AllWork [] [] h enough = refl
send_response-AllWork [] (c ∷ response) h enough = absurd (omega arith)
send_response-AllWork (send ∷ sends) [] h enough = refl
send_response-AllWork (sent n ∷ sends) (c ∷ response) h enough = elim (Bool-cases (n == 0)) [
  | inl e ↦ absurd (ground (arith, h.0, e))
  | inr e ↦
      rw (e, send_response)
        (ap (λ t. take n (c ∷ response) ++ t)
            (send_response-AllWork sends (drop n (c ∷ response)) h.1
              (omega (arith, length-drop n (c ∷ response), enough)))
          ∙ take-append-drop n (c ∷ response))
]
send_response-AllWork (send_interrupted ∷ sends) (c ∷ response) h enough =
    send_response-AllWork sends (c ∷ response) h.1 enough
send_response-AllWork (full poll ∷ sends) (c ∷ response) h enough =
    rw (h.0, send_response) (send_response-AllWork sends (c ∷ response) h.1 enough)
send_response-AllWork (send_failed ∷ sends) (c ∷ response) h enough = elim h.0 [ ]

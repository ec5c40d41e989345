-- ===== src/WebApi/Transfer.antt =====
-- What is sent and received in a transfer.
use mathlib.Core.List.{append_assoc, append-nil}
use lidar.Prelude.{
  ℕ, zero, suc, Bool, true, false, List, [], ◌∷◌, ◌++◌, ◌≡◌, refl, ap, sym, ◌∙◌, arith, length,
  take, drop,
}
use lidar.WebApi.{
  WebApi, read_memory, write_memory, Callback, read_callback, write_callback, Performed, call_back,
  call_back_all, run_curl, post_curl, post_url, post_bytes,
}

-- The bytes that the calls of the read callback give to libcurl, one call after the other.
abbrev pub sent : List Callback → WebApi → List ℕ
sent [] w = []
sent (read_callback n ∷ cs) w = (read_memory n w).1 ++ sent cs (read_memory n w).0
sent (write_callback bytes ∷ cs) w = sent cs (write_memory bytes w).0

-- The bytes that libcurl gives to the write callback.
abbrev pub received : List Callback → List ℕ
received [] = []
received (read_callback n ∷ cs) = received cs
received (write_callback bytes ∷ cs) = bytes ++ received cs

take-drop-append : (n : ℕ) (xs : List ℕ) → take n xs ++ drop n xs ≡ xs
take-drop-append zero xs = refl
take-drop-append (suc n) [] = refl
take-drop-append (suc n) (x ∷ xs) = ap (λ t. x ∷ t) (take-drop-append n xs)

read_split :
    (n : ℕ) (w : WebApi)
    → ((read_memory n w).1 ++ (read_memory n w).0.post_data ≡ w.post_data)
      × ((read_memory n w).0.return_data ≡ w.return_data)
unfolding read_memory
read_split n w =
    ground
      (arith, take-drop-append n w.post_data, take-drop-append (length w.post_data) w.post_data)

pub calls_split :
    (cs : List Callback) (w : WebApi)
    → (sent cs w ++ (call_back_all cs w).post_data ≡ w.post_data)
      × ((call_back_all cs w).return_data ≡ w.return_data ++ received cs)
unfolding call_back_all call_back write_memory
calls_split [] w = (refl, sym (append-nil w.return_data))
calls_split (read_callback n ∷ cs) w =
    let w1 = (read_memory n w).0 in
    let (s, r) = calls_split cs w1 in
    let (s0, r0) = read_split n w in
    (
      append_assoc (read_memory n w).1 (sent cs w1) (call_back_all cs w1).post_data
          ∙ ap (λ t. (read_memory n w).1 ++ t) s
          ∙ s0,
      r ∙ ap (λ t. t ++ received cs) r0,
    )
calls_split (write_callback bytes ∷ cs) w =
    let (s, r) = calls_split cs (write_memory bytes w).0 in
    (s, r ∙ append_assoc w.return_data bytes (received cs))

-- The members that no callback touches.
abbrev pub Untouched : WebApi → WebApi → Type 0
Untouched w v =
    (v.responded ≡ w.responded)
    × (v.sema ≡ w.sema)
    × (v.has_thread ≡ w.has_thread)
    × (v.url ≡ w.url)

call_back-Untouched : (c : Callback) (w : WebApi) → Untouched w (call_back c w)
unfolding call_back read_memory write_memory
call_back-Untouched (read_callback n) w = ground arith
call_back-Untouched (write_callback bytes) w = (refl, refl, refl, refl)

pub call_back_all-Untouched : (cs : List Callback) (w : WebApi) → Untouched w (call_back_all cs w)
unfolding call_back_all
call_back_all-Untouched [] w = (refl, refl, refl, refl)
call_back_all-Untouched (c ∷ cs) w =
    let (a, b, d, e) = call_back-Untouched c w in
    let (a', b', d', e') = call_back_all-Untouched cs (call_back c w) in
    (a' ∙ a, b' ∙ b, d' ∙ d, e' ∙ e)

-- The state in which a request without thread starts its transfer.
abbrev pub posting : List ℕ → List ℕ → WebApi → WebApi
posting bytes url w = record w { post_data = bytes; url = url; responded = false; return_data = [] }

-- Without a thread, `post( data, size, url )` returns when libcurl is done: what the write callback was
-- given is the returned data, and `m_HasResponded` tells whether the transfer succeeded. What the read
-- callback gave is the beginning of the data, each byte once and in order, and the rest of the data is
-- kept.
pub post_bytes_now :
    (curl : Bool → List ℕ → Performed) (bytes url : List ℕ) (w : WebApi)
    → w.has_thread ≡ false
    → ((post_bytes curl bytes url w).return_data ≡ received (curl true url).callbacks)
      × ((post_bytes curl bytes url w).responded ≡ (curl true url).ok)
      × (sent (curl true url).callbacks (posting bytes url w)
            ++ (post_bytes curl bytes url w).post_data
          ≡ bytes)
unfolding post_bytes post_url post_curl run_curl
post_bytes_now curl bytes url w h =
    let t = curl true url in
    let (s, r) = calls_split t.callbacks (posting bytes url w) in
    let kept = call_back_all-Untouched t.callbacks (posting bytes url w) in
    (ground (arith, h, r), ground (arith, h, kept.0), ground (arith, h, s))

-- ===== src/Observer/Flush.antt =====
-- The thread of an observer that writes its messages.
use mathlib.Core.List.{append_assoc, append-nil}
use lidar.Prelude.{
  ℕ, Bool, false, not, List, [], ◌∷◌, ◌++◌, ◌≡◌, refl, ap, sym, ◌∙◌, arith, ltb, ◌==◌,
  if◌then◌else◌, length,
}

-- `messages`, `isFlushed`, and what `write` has been given.
pub record Writer : Type 0 where
  pub messages : List (List ℕ)
  pub written : List (List ℕ)
  pub is_flushed : Bool

-- `messages.push_back( msg )`
unfoldable pub push_back : List ℕ → Writer → Writer
push_back msg w = record w { messages = w.messages ++ msg ∷ [] }

unfoldable pub push_all : List (List ℕ) → Writer → Writer
push_all [] w = w
push_all (msg ∷ msgs) w = push_all msgs (push_back msg w)

-- `threadFunction`; `arriving` are the messages that come while it writes.
unfoldable pub thread_function : List (List ℕ) → Writer → Writer
thread_function arriving w =
    let taken = record w { messages = [] } in
    let wrote =
      if ltb 0 (length w.messages)
      then record taken { written = w.written ++ w.messages }
      else taken in
    let after = push_all arriving wrote in
    record after { is_flushed = not (length after.messages == 0) }

-- `ThreadFunction`, by the messages that come in each of its rounds
unfoldable pub rounds : List (List (List ℕ)) → Writer → Writer
rounds [] w = w
rounds (arriving ∷ later) w = rounds later (thread_function arriving w)

-- What `flush` sets before it waits for the flag.
unfoldable pub begin_flush : Writer → Writer
begin_flush w = record w { is_flushed = false }

abbrev pub join : List (List (List ℕ)) → List (List ℕ)
join [] = []
join (ms ∷ mss) = ms ++ join mss

push_all_lem :
    (msgs : List (List ℕ)) (w : Writer)
    → ((push_all msgs w).messages ≡ w.messages ++ msgs) × ((push_all msgs w).written ≡ w.written)
unfolding push_all push_back
push_all_lem [] w = (sym (append-nil w.messages), refl)
push_all_lem (msg ∷ msgs) w =
    let (m, k) = push_all_lem msgs (push_back msg w) in
    (m ∙ append_assoc w.messages (msg ∷ []) msgs, k)

nothing_taken : (ms written : List (List ℕ)) → ltb 0 (length ms) ≡ false → written ++ ms ≡ written
nothing_taken [] written h = append-nil written
nothing_taken (m ∷ ms) written h = absurd (ground (arith, h))

one_round :
    (arriving : List (List ℕ)) (w : Writer)
    → let r = thread_function arriving w in
      (r.messages ≡ arriving)
      × (r.written ≡ w.written ++ w.messages)
      × (r.is_flushed ≡ not (length arriving == 0))
unfolding thread_function
one_round arriving w =
    let wrote : Writer = record w { messages = []; written = w.written ++ w.messages } in
    let idle : Writer = record w { messages = [] } in
    let (m, k) = push_all_lem arriving wrote in
    let (m', k') = push_all_lem arriving idle in
    ground (arith, m, k, m', k', nothing_taken w.messages w.written)

-- However the messages come, all of them are written in their order, but for those that came in the
-- last round, which still wait.
pub rounds_written :
    (mss : List (List (List ℕ))) (w : Writer)
    → (rounds mss w).written ++ (rounds mss w).messages ≡ (w.written ++ w.messages) ++ join mss
unfolding rounds
rounds_written [] w = sym (append-nil (w.written ++ w.messages))
rounds_written (ms ∷ mss) w =
    let (m, k, f) = one_round ms w in
    rounds_written mss (thread_function ms w)
    ∙ ground (arith, m, k, append_assoc (w.written ++ w.messages) ms (join mss))

-- A round sets the flag that `flush` waits for exactly if messages still wait, and not if all have been
-- written.
flushed_too_early :
    (mss : List (List (List ℕ))) (ms : List (List ℕ)) (w : Writer)
    → let r = rounds (mss ++ ms ∷ []) (begin_flush w) in
      (r.is_flushed ≡ not (length r.messages == 0)) × (r.messages ≡ ms)
unfolding rounds
flushed_too_early mss ms w = last mss (begin_flush w)
  where
    last :
        (mss : List (List (List ℕ))) (v : Writer)
        → let r = rounds (mss ++ ms ∷ []) v in
          (r.is_flushed ≡ not (length r.messages == 0)) × (r.messages ≡ ms)
    last [] v = let (m, k, f) = one_round ms v in (f ∙ ap (λ x. not (length x == 0)) (sym m), m)
    last (x ∷ xs) v = last xs (thread_function x v)

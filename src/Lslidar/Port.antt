-- ===== src/Lslidar/Port.antt =====
-- `waitReadable` and `read`. The serial port is a list of what each `select` tells and a list of what
-- each `read` of the system gives.
use lidar.Prelude.{
  ℕ, zero, suc, ◌+◌, ◌-◌, ◌≤◌, Bool, true, false, List, [], ◌∷◌, ◌++◌, Option, none, some, ◌≡◌,
  refl, inl, inr, ◌⊎◌, leb, ◌==◌, if◌then◌else◌, arith, length, take, drop, replicate,
  length-append, length-take, length-replicate,
}

-- What `select` tells: bytes, the end of the time, or an error.
pub data Select : Type 0 where
  readable : Select
  timed_out : Select
  failed : Select

-- What `::read` gives: bytes, which may be none, or an error.
pub data Read : Type 0 where
  got : List ℕ → Read
  read_failed : Read

-- Without more of them, `select` waits until the time is over and `::read` gives no bytes.
pub record Port : Type 0 where
  pub selects : List Select
  pub reads : List Read

-- `waitReadable`, with a round for each five seconds
unfoldable pub wait_readable : ℕ → ℕ → Port → Select × Port
wait_readable zero millis p = (timed_out, p)
wait_readable (suc rounds) millis p = elim (millis == 0) [
  | true ↦ (timed_out, p)
  | false ↦ elim p.selects [
    | [] ↦ (timed_out, p)
    | readable ∷ rest ↦ (readable, record p { selects = rest })
    | failed ∷ rest ↦ (failed, record p { selects = rest })
    | timed_out ∷ rest ↦ wait_readable rounds (millis - 5000) (record p { selects = rest })
  ]
]

-- `::read( fd, pb, length )`: what it does not give is there for the next one.
unfoldable pub next_read : ℕ → Port → Read × Port
next_read length_ p = elim p.reads [
  | [] ↦ (got [], p)
  | read_failed ∷ rest ↦ (read_failed, record p { reads = rest })
  | got new ∷ rest ↦
      let left = if leb (length new) length_ then rest else got (drop length_ new) ∷ rest in
      (got (take length_ new), record p { reads = left })
]

unfoldable pub is_readable : Select → Bool
is_readable readable = true
is_readable timed_out = false
is_readable failed = false

-- The loop of `read`, of which there are so many rounds left before `unlink` is too large: the bytes
-- that it has read, whether it does not end with -1, and the port.
unfoldable pub read_loop : ℕ → ℕ → ℕ → List ℕ → Port → List ℕ × Bool × Port
read_loop zero length_ retry bytes p = (bytes, false, p)
read_loop (suc rounds) length_ retry bytes p =
    let (r, p') = next_read length_ p in
    let waited = wait_readable 1 20 p' in
    elim r [
      | got new ↦ elim (length new == length_) [
        | true ↦ (bytes ++ new, true, p')
        | false ↦ elim (rounds == 0) [
          | true ↦ (bytes ++ new, false, waited.1)
          | false ↦ elim (is_readable waited.0) [
            | true ↦ read_loop rounds (length_ - length new) retry (bytes ++ new) waited.1
            | false ↦ (bytes ++ new, true, waited.1)
          ]
        ]
      ]
      | read_failed ↦ elim (leb retry 1) [
        | true ↦ (bytes, true, p')
        | false ↦ elim (rounds == 0) [
          | true ↦ (bytes, false, waited.1)
          | false ↦ elim (is_readable waited.0) [
            | true ↦ read_loop rounds length_ (retry - 1) bytes waited.1
            | false ↦ (bytes, true, waited.1)
          ]
        ]
      ]
    ]

-- `read`, for a timeout above 0: the bytes that stand in the buffer afterwards, the number of those
-- that were read, or `none` for -1, and the port.
unfoldable pub read : ℕ → ℕ → Port → List ℕ × Option ℕ × Port
read length_ timeout p =
    let (rc, p') = wait_readable (timeout + 1) timeout p in
    let (bytes, ok, p'') = read_loop 11 length_ 3 [] p' in
    elim rc [
      | timed_out ↦ (replicate length_ 0, some 0, p')
      | failed ↦ (replicate length_ 0, none, p')
      | readable ↦ (
        bytes ++ replicate (length_ - length bytes) 0,
        if ok then some (length bytes) else none,
        p'',
      )
    ]

Read-cases : (r : Read) → ((new : List ℕ) × (r ≡ got new)) ⊎ (r ≡ read_failed)
Read-cases (got new) = inl (new, refl)
Read-cases read_failed = inr refl

unfoldable new_length : Read → ℕ
new_length (got new) = length new
new_length read_failed = 0

next_read_size :
    (n : ℕ) (reads : List Read) (p : Port) → p.reads ≡ reads → new_length (next_read n p).0 ≤ n
unfolding next_read new_length
next_read_size n [] p h = rw (h) (omega arith)
next_read_size n (read_failed ∷ rest) p h = rw (h) (omega arith)
next_read_size n (got new ∷ rest) p h =
    let size = length-take n new in rw (h) (ground (arith, size))

read_loop_size :
    (rounds n retry : ℕ) (bytes : List ℕ) (p : Port)
    → length (read_loop rounds n retry bytes p).0 ≤ length bytes + n
unfolding read_loop new_length
read_loop_size zero n retry bytes p = omega arith
read_loop_size (suc rounds) n retry bytes p =
    let step = next_read n p in
    let waited = wait_readable 1 20 step.1 in
    let size = next_read_size n p.reads p refl in
    elim (Read-cases step.0) [
      | inl (new, e) ↦
          let fits : length new ≤ n = ground (arith, e, size) in
          let joined = length-append bytes new in
          let rest = read_loop_size rounds (n - length new) retry (bytes ++ new) waited.1 in
          ground (arith, e, fits, joined, rest)
      | inr e ↦
          let rest = read_loop_size rounds n (retry - 1) bytes waited.1 in ground (arith, e, rest)
    ]

-- `read` gives as many bytes for the buffer as it was asked for, whatever the port does.
pub length-read : (length_ timeout : ℕ) (p : Port) → length (read length_ timeout p).0 ≡ length_
unfolding read
length-read length_ timeout p =
    let rc = wait_readable (timeout + 1) timeout p in
    let bytes = (read_loop 11 length_ 3 [] rc.1).0 in
    let size = read_loop_size 11 length_ 3 [] rc.1 in
    let filled = length-append bytes (replicate (length_ - length bytes) 0) in
    ground (
      arith,
      size,
      filled,
      length-replicate {A = ℕ} (length_ - length bytes) 0,
      length-replicate {A = ℕ} length_ 0,
    )

-- ===== src/WebApi/Thread.antt =====
-- The thread of a `WebAPI` and its user, as steps in any order.
use lidar.Prelude.{ℕ, ◌+◌, ◌-◌, ◌<◌, Bool, true, false, List, [], ◌≡◌, ◌∙◌, arith, if◌then◌else◌}
use lidar.WebApi.{
  WebApi, Performed, run_curl, get_curl, post_curl, get_url, post_url, take_request, run_request,
  is_ready, has_responded,
}
use lidar.WebApi.Transfer.{received, call_back_all-Untouched, calls_split}

-- The object, and whether the thread has taken a request and not finished it.
pub record System : Type 0 where
  pub api : WebApi
  pub working : Bool

module _ (curl : Bool → List ℕ → Performed) where
  -- A user who asks only when `isReady` says so, and the thread.
  pub data Step : System → System → Type 0 where
    asks_get :
        (s : System) (url : List ℕ)
        → is_ready s.api ≡ true
        → Step s (record s { api = get_url curl url s.api })
    asks_post :
        (s : System) (url : List ℕ)
        → is_ready s.api ≡ true
        → Step s (record s { api = post_url curl url s.api })
    takes :
        (s : System)
        → 0 < s.api.sema
        → s.working ≡ false
        → Step s (record { api = take_request curl s.api; working = true })
    finishes :
        (s : System)
        → s.working ≡ true
        → Step s (record { api = run_request curl s.api; working = false })

  pub data Reaches : System → System → Type 0 where
    stays : (s : System) → Reaches s s
    then_step : (s t u : System) → Reaches s t → Step t u → Reaches s u

  -- There is a thread, and a request waits or runs exactly while the object is not ready.
  abbrev pub IsCounted : System → Type 0
  IsCounted s =
      (s.api.has_thread ≡ true)
      × (s.api.sema + (if s.working then 1 else 0) ≡ (if s.api.ready then 0 else 1))

  run_keeps :
      (w : WebApi)
      → ((run_request curl w).sema ≡ w.sema)
        × ((run_request curl w).has_thread ≡ w.has_thread)
        × ((run_request curl w).ready ≡ true)
  unfolding run_request post_curl get_curl run_curl
  run_keeps w =
      let fresh = record w { responded = false; return_data = [] } in
      let (a, b, d, e) = call_back_all-Untouched (curl true w.url).callbacks fresh in
      let (a', b', d', e') = call_back_all-Untouched (curl false w.url).callbacks fresh in
      (ground (arith, b, b'), ground (arith, d, d'), ground arith)

  Step-IsCounted : (s t : System) → Step s t → IsCounted s → IsCounted t
  unfolding get_url post_url take_request is_ready
  Step-IsCounted _ _ (asks_get s url r) (h, c) = (ground (arith, h), ground (arith, h, c, r))
  Step-IsCounted _ _ (asks_post s url r) (h, c) = (ground (arith, h), ground (arith, h, c, r))
  Step-IsCounted _ _ (takes s p w) (h, c) = (h, ground (arith, p, w, c))
  Step-IsCounted _ _ (finishes s w) (h, c) =
      let (sema, thread, ready) = run_keeps s.api in (thread ∙ h, ground (arith, sema, ready, c, w))

  Reaches-IsCounted : (s t : System) → Reaches s t → IsCounted s → IsCounted t
  Reaches-IsCounted _ _ (stays s) c = c
  Reaches-IsCounted _ _ (then_step s u t r step) c =
      Step-IsCounted u t step (Reaches-IsCounted s u r c)

  -- Whenever the object is ready again, no request waits for the thread and none runs, if the user only
  -- asks when it is ready.
  pub ready_idle :
      (s t : System)
      → IsCounted s
      → Reaches s t
      → is_ready t.api ≡ true
      → (t.api.sema ≡ 0) × (t.working ≡ false)
  unfolding is_ready
  ready_idle s t c r ready =
      let (h, n) = Reaches-IsCounted s t r c in (ground (arith, n, ready), ground (arith, n, ready))

  -- A request by the thread ends with the answer of its own URL: the object is ready, it has the bytes
  -- that libcurl received, and it has responded if the transfer succeeded.
  pub get_threaded :
      (url : List ℕ) (w : WebApi)
      → w.has_thread ≡ true
      → let r = run_request curl (take_request curl (get_url curl url w)) in
        (is_ready r ≡ true)
        × (has_responded r ≡ (curl false url).ok)
        × (r.return_data ≡ received (curl false url).callbacks)
  unfolding run_request take_request get_url get_curl run_curl is_ready has_responded
  get_threaded url w h =
      let t = curl false url in
      let fresh = record w {
        url = url;
        ready = false;
        method_is_post = false;
        responded = false;
        return_data = [];
        sema = w.sema + 1 - 1;
      } in
      let (s, r) = calls_split t.callbacks fresh in
      let (a, b, d, e) = call_back_all-Untouched t.callbacks fresh in
      (ground arith, ground (arith, h, a), ground (arith, h, r))

-- ===== src/WebApi/Tests.antt =====
-- Requests with a libcurl that reads in two pieces and answers with the URL.
use lidar.Prelude.{ℕ, Bool, true, false, List, [], ◌∷◌, ◌++◌, ◌≡◌, refl, arith}
use lidar.WebApi.{
  WebApi, Performed, read_callback, write_callback, web_api, start_thread, get_url, post_bytes,
  take_request, run_request, is_ready,
}
use lidar.WebApi.Transfer.{sent, posting, post_bytes_now}
use lidar.WebApi.Thread.{System, asks_get, takes, finishes, Reaches, stays, then_step, ready_idle}

abbrev echo : Bool → List ℕ → Performed
echo post url = record {
  callbacks = read_callback 2 ∷ write_callback url ∷ read_callback 2 ∷ [];
  ok = post;
}

abbrev direct : WebApi
direct = web_api false false

abbrev threaded : WebApi
threaded = start_thread direct

post_bytes_now_example :
    ((post_bytes echo (1 ∷ 2 ∷ 3 ∷ 4 ∷ 5 ∷ []) (9 ∷ []) direct).return_data ≡ 9 ∷ [])
    × ((post_bytes echo (1 ∷ 2 ∷ 3 ∷ 4 ∷ 5 ∷ []) (9 ∷ []) direct).responded ≡ true)
    × (sent (echo true (9 ∷ [])).callbacks (posting (1 ∷ 2 ∷ 3 ∷ 4 ∷ 5 ∷ []) (9 ∷ []) direct)
          ++ (post_bytes echo (1 ∷ 2 ∷ 3 ∷ 4 ∷ 5 ∷ []) (9 ∷ []) direct).post_data
        ≡ 1 ∷ 2 ∷ 3 ∷ 4 ∷ 5 ∷ [])
unfolding web_api
post_bytes_now_example = post_bytes_now echo (1 ∷ 2 ∷ 3 ∷ 4 ∷ 5 ∷ []) (9 ∷ []) direct refl

abbrev idle : System
idle = record { api = threaded; working = false }

abbrev asked : System
asked = record { api = get_url echo (7 ∷ []) threaded; working = false }

abbrev running : System
running = record { api = take_request echo asked.api; working = true }

abbrev served : System
served = record { api = run_request echo running.api; working = false }

one_request : Reaches echo idle served
unfolding start_thread web_api get_url is_ready
one_request =
    then_step idle running served
      (then_step idle asked running
        (then_step idle idle asked (stays idle) (asks_get idle (7 ∷ []) refl))
        (takes asked (omega arith) refl))
      (finishes running refl)

ready_idle_example : (served.api.sema ≡ 0) × (served.working ≡ false)
unfolding start_thread web_api is_ready run_request
ready_idle_example = ready_idle echo idle served (refl, refl) one_request refl

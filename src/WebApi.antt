-- ===== src/WebApi.antt =====
-- lidartool/Trackable/webAPI.h and webAPI.cpp: HTTP requests, made at once or by a thread. What libcurl
-- does in a transfer is a parameter: the calls of the two callbacks, and the result.
use lidar.Prelude.{
  ℕ, zero, suc, ◌+◌, ◌-◌, Bool, true, false, not, ◌&&◌, List, [], ◌∷◌, ◌++◌, ltb, if◌then◌else◌,
  length, take, drop,
}
pub mod Transfer
pub mod Thread
mod Tests

pub record WebApi : Type 0 where
  pub has_thread : Bool
  pub exit_thread : Bool
  pub sema : ℕ
  pub url : List ℕ
  pub ready : Bool
  pub verbose : Bool
  pub responded : Bool
  pub method_is_post : Bool
  pub post_data : List ℕ
  pub return_data : List ℕ
  pub headers : List (List ℕ)

-- `WebAPI( verbose )`; `m_MethodIsPost` is not set by the constructor.
unfoldable pub web_api : Bool → Bool → WebApi
web_api verbose method_is_post = record {
  has_thread = false;
  exit_thread = false;
  sema = 0;
  url = [];
  ready = true;
  verbose = verbose;
  responded = false;
  method_is_post = method_is_post;
  post_data = [];
  return_data = [];
  headers = [];
}

-- `setThreaded( true )`
unfoldable pub start_thread : WebApi → WebApi
start_thread w = record w { has_thread = true }

unfoldable pub add_header : List ℕ → WebApi → WebApi
add_header h w = record w { headers = w.headers ++ h ∷ [] }

-- `isReady`, `hasReturnData` and `hasResponded`
unfoldable pub is_ready : WebApi → Bool
is_ready w = w.ready

unfoldable pub has_return_data : WebApi → Bool
has_return_data w = if not w.ready then false else ltb 0 (length w.return_data)

unfoldable pub has_responded : WebApi → Bool
has_responded w = if not w.ready then false else w.responded

unfoldable pub clear_return_data : WebApi → WebApi
clear_return_data w = record w { return_data = []; responded = false }

-- `readMemory`, with `buffer_size` for the product of its sizes, and the bytes that were copied.
unfoldable pub read_memory : ℕ → WebApi → WebApi × List ℕ
read_memory buffer_size w =
    let size = length w.post_data in
    let count = if ltb buffer_size size then buffer_size else size in
    if ltb 0 size
    then (record w { post_data = drop count w.post_data }, take count w.post_data)
    else (w, [])

-- `writeMemory`
unfoldable pub write_memory : List ℕ → WebApi → WebApi × ℕ
write_memory contents w = (record w { return_data = w.return_data ++ contents }, length contents)

-- A call of one of the callbacks.
pub data Callback : Type 0 where
  read_callback : ℕ → Callback
  write_callback : List ℕ → Callback

-- A transfer of libcurl: the callbacks that `curl_easy_perform` makes, and whether its result is
-- `CURLE_OK`.
pub record Performed : Type 0 where
  pub callbacks : List Callback
  pub ok : Bool

unfoldable pub call_back : Callback → WebApi → WebApi
call_back (read_callback n) w = (read_memory n w).0
call_back (write_callback bytes) w = (write_memory bytes w).0

unfoldable pub call_back_all : List Callback → WebApi → WebApi
call_back_all [] w = w
call_back_all (c ∷ cs) w = call_back_all cs (call_back c w)

-- `getCurl` and `postCurl`, which differ in the options that libcurl gets.
unfoldable pub run_curl : Performed → WebApi → WebApi × Bool
run_curl t w =
    let after = call_back_all t.callbacks (record w { responded = false; return_data = [] }) in
    if t.ok then (record after { responded = true }, true) else (after, false)

module _ (curl : Bool → List ℕ → Performed) where
  unfoldable pub get_curl : WebApi → WebApi × Bool
  get_curl w = run_curl (curl false w.url) w

  unfoldable pub post_curl : WebApi → WebApi × Bool
  post_curl w = run_curl (curl true w.url) w

  -- `get( url )`
  unfoldable pub get_url : List ℕ → WebApi → WebApi
  get_url url w =
      if not w.has_thread
      then (get_curl (record w { url = url })).0
      else record w { method_is_post = false; url = url; ready = false; sema = w.sema + 1 }

  -- `post( url )`
  unfoldable pub post_url : List ℕ → WebApi → WebApi
  post_url url w =
      if not w.has_thread
      then (post_curl (record w { url = url })).0
      else record w { method_is_post = true; url = url; ready = false; sema = w.sema + 1 }

  -- `post( data, size, url )`
  unfoldable pub post_bytes : List ℕ → List ℕ → WebApi → WebApi
  post_bytes bytes url w = post_url url (record w { post_data = bytes })

  -- `threadFunction`, in two parts: it takes the semaphore, and then it runs the request.
  unfoldable pub take_request : WebApi → WebApi
  take_request w = record w { sema = w.sema - 1 }

  unfoldable pub run_request : WebApi → WebApi
  run_request w =
      let done = if w.method_is_post then (post_curl w).0 else (get_curl w).0 in
      record done { ready = true }

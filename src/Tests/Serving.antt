-- ===== src/Tests/Serving.antt =====
-- A streamed chat completion from the virtual key to the charge.
use diffractllm.Base.{
  length, ok, err, negsuc, ◌⊎◌, List, [], false, none, or_default, pos, refl, some, true, ℕ, ◌*◌,
  ◌∷◌, ◌≡◌, ◌≤ℤ◌, ◌≤◌,
}
use diffractllm.Core.Hooks.{reset}
use diffractllm.Catalog.Prices.{new_base_pricing_snapshot}
use diffractllm.Metrics.Recording.{Metering, gateway_hooks}
use diffractllm.Core.Errors.{new_invalid_request_body}
use diffractllm.Tests.Events.{failed_exchange}
use diffractllm.Server.Answer.{Answer, Pricer}
use diffractllm.Server.Bodies.{read_body-whole}
use diffractllm.Server.Chat.{
  Received, StreamEnd, delta_chunk, nil_chunk, upstream_streamed, stream_loop,
}
use diffractllm.Server.Endings.{IsAnswered, generic_request_handler-answers}
use diffractllm.Server.Handler.{
  fails_within, Body, Gateway, Incoming, Progress, Served, generic_request_handler, read_body,
}
use diffractllm.Server.Streams.{IsDone, cause, usages, write_failed, stream_loop-IsEnded}
use diffractllm.Tests.Prices.{whole, price}
use diffractllm.Tests.Requests.{dollars, catalog, shared, elapsed, old_log, arrived}
use diffractllm.Tests.Routes.{wheel, only_openai, variant}
use diffractllm.Tests.Samples.{virtual_key, key_text, request}

abbrev pricer : Pricer ℕ
pricer = record { float = whole; money = dollars; from_nano = λ n. 0 }

abbrev reset_answer : Answer ℕ
reset_answer = record {
  response_status = pos 0;
  response_bytes = pos 0;
  error = none;
  request_completed = false;
  usage = none;
  cost = 0;
  stream_chunks = 0;
  stream_finish_reason = "";
  stream_aborted = false;
}

abbrev opened : Answer ℕ
opened = record reset_answer { response_status = pos 200 }

abbrev chunks : List (Received ℕ)
chunks =
    record {
      chunk = delta_chunk none none;
      client_gone = false;
      write_fails = false;
      size = pos 20;
    }
    ∷ record { chunk = nil_chunk; client_gone = false; write_fails = false; size = pos 0 }
    ∷ record {
      chunk = delta_chunk (some request) (some "stop");
      client_gone = false;
      write_fails = false;
      size = pos 30;
    }
    ∷ []

abbrev stream_end : StreamEnd
stream_end = record { client_gone = false; write_fails = true; size = pos 14 }

stream_loop-IsEnded_example :
    IsDone pricer price
      (cause chunks stream_end)
      (usages chunks)
      0
      (stream_loop pricer price chunks stream_end opened)
stream_loop-IsEnded_example =
    stream_loop-IsEnded pricer price chunks stream_end opened
      (record { status = refl; fine = refl; there = refl; going = refl }) refl

ended_by : cause chunks stream_end ≡ write_failed
unfolding cause
ended_by = refl

used : usages chunks ≡ (request ∷ [])
unfolding usages
used = refl

abbrev body : Body
body = record {
  content_length = pos 2;
  bytes = 123 ∷ 125 ∷ [];
  read_fails = false;
  fails_early = false;
}

read_body-whole_example :
    Path (List ℕ) (123 ∷ 125 ∷ []) body.bytes
    × (2 ≤ 1 * 1_024)
    × (pos 2 ≤ℤ pos (1 * 1_024))
    × ((body.read_fails ≡ false) ⊎ (length {A = ℕ} (123 ∷ 125 ∷ []) ≡ 1 * 1_024))
unfolding read_body fails_within
read_body-whole_example = read_body-whole 1 body (123 ∷ 125 ∷ []) refl

-- A body that breaks at the limit is taken, one that breaks before is not.
broken_at_limit :
    read_body 0
      (record { content_length = negsuc 0; bytes = []; read_fails = true; fails_early = true })
    ≡ ok []
unfolding read_body fails_within
broken_at_limit = refl

broken_before :
    read_body 1 (record body { read_fails = true }) ≡ err (new_invalid_request_body "reading body")
unfolding read_body fails_within
broken_before = refl

abbrev metering : Metering ℕ ℕ
metering = record {
  config = record { payload_mode = "full"; payload_max_kb = 1 };
  nano = λ cost. pos cost;
  workers = true;
  started = true;
  id = "e1";
  total = pos 20_000;
  exchange = λ rctx. failed_exchange;
}

abbrev gateway : Gateway ℕ ℕ ℕ
gateway = record {
  max_body_size = 1;
  keys = some ((key_text, virtual_key) ∷ []);
  hooks = gateway_hooks dollars catalog (some metering);
  wheel = wheel;
  source = only_openai;
  base_pricing = some (new_base_pricing_snapshot (variant ∷ []));
  custom_pricing = none;
  providers = "openai" ∷ [];
  pricer = pricer;
}

abbrev incoming : Incoming ℕ ℕ ℕ
incoming = record {
  now = pos 10;
  elapsed = elapsed;
  random = 0;
  body = body;
  parse = λ bytes. some "openai/gpt-4o";
  streaming = true;
  flusher = true;
  error_size = λ e. pos 40;
  call = λ cred rctx. ("gpt-4o-2024", upstream_streamed chunks stream_end);
}

abbrev start : Progress ℕ ℕ
start = record { shared = record shared { rctx = arrived }; log = reset old_log; cursors = [] }

abbrev nobody : Served ℕ ℕ
nobody = record { progress = start; answer = reset_answer; called = none }

abbrev served : Served ℕ ℕ
served = or_default (generic_request_handler gateway incoming reset_answer start) nobody

generic_request_handler-answers_example :
    (served : Served ℕ ℕ) × (generic_request_handler gateway incoming reset_answer start
      ≡ some served)
    × IsAnswered served
generic_request_handler-answers_example =
    generic_request_handler-answers gateway incoming dollars catalog (some metering) refl start
      old_log reset_answer refl (record { fine = refl; there = refl; going = refl; unused = refl })

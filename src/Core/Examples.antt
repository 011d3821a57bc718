-- ===== src/Core/Examples.antt =====
-- The parts of app/core at concrete values.
use llm_agent_runtime.Prelude.{◌+◌, ◌≡◌, refl, String, List, [], ◌∷◌, none, some}
use llm_agent_runtime.Prelude.Json.{obj, str, end, field}
use llm_agent_runtime.Prelude.Python.{Python}
use llm_agent_runtime.Core.Errors.{ToolErrorCode, ToolExecutionError}
use llm_agent_runtime.Core.Retry.{backoff_delay}
use llm_agent_runtime.Core.Llm.{Message, Role, LlmResponse}
use llm_agent_runtime.Core.Compressor.{compressed_with}
use llm_agent_runtime.Core.Compressor.Pairing.{IsPaired, compressed_with-IsPaired}

abbrev py : Python
py = record {
  lower = λ s. s;
  strip = λ s. s;
  strip_ticks = λ s. s;
  text_of = λ v. "";
  dumps = λ v. "{}";
  dumps_sorted = λ v. "{}";
  raw_decode = λ s. none;
  sha1_hex = λ s. s;
  int_of = λ s. none;
  decimal = λ n. none;
  sorted_names = λ names. "[]";
}

abbrev said : Role → String → Message
said role content = record {
  role = role;
  content = content;
  tool_calls = [];
  tool_call_id = "";
  name = "";
}

abbrev history : List Message
history =
    said Role.system "rules"
    ∷ said Role.user "go"
    ∷ record (said Role.assistant "calling") {
      tool_calls = obj (field "id" (str "c1") end) ∷ obj (field "id" (str "c2") end) ∷ [];
    }
    ∷ record (said Role.tool "found") { tool_call_id = "c2" }
    ∷ record (said Role.tool "found") { tool_call_id = "c1" }
    ∷ []

abbrev summary : LlmResponse
summary = record { text = "short"; tool_calls = []; model = "m"; tokens_used = 3 }

first_wait : backoff_delay 1 500 8000 ≡ some 500
unfolding backoff_delay
first_wait = refl

second_wait : backoff_delay (1 + 1) 500 8000 ≡ some 1000
unfolding backoff_delay
second_wait = refl

abbrev refused : ToolExecutionError
refused = record {
  message = "connection refused, see timeout";
  code = some ToolErrorCode.auth;
  retryable = none;
  retry_after_s = none;
}

compressed_with-IsPaired_example : IsPaired [] (compressed_with py history summary).0
compressed_with-IsPaired_example =
    compressed_with-IsPaired py history summary (refl, (refl, (refl, (refl, (refl, tt)))))

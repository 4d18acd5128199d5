-- ===== src/Llm/Usage.antt =====
-- The ledger of usage (internal/llm/middleware/usage.go). The file is a value, or `none` where it cannot be read; the
-- day and the time are texts that come with the call. Sums do not overflow.
pub mod Tallies
use insightify_core.Prelude.{
  ℕ, zero, suc, ◌+◌, Bool, true, false, Option, none, some, List, [], ◌∷◌, ltb, is_empty,
  if◌then◌else◌,
}
use insightify_core.Prelude.Text.{Text, codes}
use insightify_core.Prelude.Dict.{Dict, find, put}

pub record UsageStat : Type 0 where
  pub requests : ℕ
  pub tokens : ℕ
  pub errors : ℕ

pub record UsageDay : Type 0 where
  pub requests : ℕ
  pub tokens : ℕ
  pub errors : ℕ
  pub models : Dict UsageStat

pub record UsageLedgerFile : Type 0 where
  pub updated_at : Text
  pub days : Dict UsageDay

-- What `record` is called with, and the readings of the clock.
pub record Call : Type 0 where
  pub model : Text
  pub tokens : ℕ
  pub has_err : Bool
  pub day : Text
  pub at_time : Text

unfoldable pub stat_or_new : Option UsageStat → UsageStat
stat_or_new none = record { requests = 0; tokens = 0; errors = 0 }
stat_or_new (some m) = m

unfoldable pub day_or_new : Option UsageDay → UsageDay
day_or_new none = record { requests = 0; tokens = 0; errors = 0; models = [] }
day_or_new (some d) = d

unfoldable pub file_or_new : Option UsageLedgerFile → UsageLedgerFile
file_or_new none = record { updated_at = []; days = [] }
file_or_new (some f) = f

unfoldable pub add_call : Call → UsageStat → UsageStat
add_call c m = record {
  requests = suc m.requests;
  tokens = m.tokens + c.tokens;
  errors = if c.has_err then suc m.errors else m.errors;
}

-- The part of `record` that changes a day.
unfoldable pub add_to_day : Call → UsageDay → UsageDay
unfolding stat_or_new add_call find put
add_to_day c d = record {
  requests = suc d.requests;
  tokens = d.tokens + c.tokens;
  errors = if c.has_err then suc d.errors else d.errors;
  models = put c.model (add_call c (stat_or_new (find c.model d.models))) d.models;
}

-- `record`: the new contents of the file.
unfoldable pub record_call : Call → Option UsageLedgerFile → UsageLedgerFile
unfolding day_or_new file_or_new add_to_day find put
record_call c read =
    let f = file_or_new read in
    record {
      updated_at = c.at_time;
      days = put c.day (add_to_day c (day_or_new (find c.day f.days))) f.days;
    }

-- The file afterwards, where the directory, the encoding, the write or the rename may fail.
unfoldable pub write_file : Bool → Call → Option UsageLedgerFile → Option UsageLedgerFile
unfolding record_call
write_file written c file = if written then some (record_call c file) else file

-- `estimateCallTokens`, of what the client counts for the prompt and the input.
unfoldable pub estimate_call_tokens : ℕ → ℕ
estimate_call_tokens t = if ltb t 1 then 1 else t

abbrev pub unknown : Text
unknown = codes "unknown"

unfoldable pub model_key : Option Text → Text
model_key none = unknown
model_key (some name) = name

-- `writeUsage`, of a ledger that may be nil and is known by its path.
unfoldable pub write_usage :
    Option Text
    → Option Text
    → ℕ
    → Bool
    → Text
    → Text
    → Bool
    → Option UsageLedgerFile
    → Option UsageLedgerFile
unfolding write_file model_key
write_usage none selected tokens has_err day at_time written file = file
write_usage (some path) selected tokens has_err day at_time written file =
    if is_empty path
    then file
    else write_file written
        (record {
          model = model_key selected;
          tokens = tokens;
          has_err = has_err;
          day = day;
          at_time = at_time;
        })
        file

-- ===== src/Llm/Usage/Tallies.antt =====
-- What the ledger of internal/llm/middleware/usage.go holds after a sequence of calls.
use insightify_core.Prelude.{
  ◌≡◌, refl, sym, ap, ◌∙◌, Bool, ◌&&◌, Option, some, List, [], ◌∷◌, if◌then◌else◌, Bool-cases, inl,
  inr,
}
use insightify_core.Prelude.Text.{Text, text_eq, text_eq_iff}
use insightify_core.Prelude.Dict.{find, find-put}
use insightify_core.Llm.Usage.{
  UsageStat, UsageDay, UsageLedgerFile, Call, stat_or_new, day_or_new, file_or_new, add_call,
  add_to_day, record_call,
}

-- Calls one after the other, each of which reads what the one before has written.
unfoldable pub record_all : List Call → Option UsageLedgerFile → Option UsageLedgerFile
unfolding record_call
record_all [] file = file
record_all (c ∷ cs) file = record_all cs (some (record_call c file))

-- The requests, tokens and errors of the calls that are meant, counted from `m` on.
unfoldable pub tally : (Call → Bool) → List Call → UsageStat → UsageStat
unfolding add_call
tally meant [] m = m
tally meant (c ∷ cs) m = tally meant cs (if meant c then add_call c m else m)

unfoldable pub day_of : Text → Option UsageLedgerFile → UsageDay
unfolding day_or_new file_or_new find
day_of day file = day_or_new (find day (file_or_new file).days)

abbrev pub totals : UsageDay → UsageStat
totals d = record { requests = d.requests; tokens = d.tokens; errors = d.errors }

unfoldable pub stat_of : Text → UsageDay → UsageStat
unfolding stat_or_new find
stat_of model d = stat_or_new (find model d.models)

abbrev pub is_of_day : Text → Call → Bool
is_of_day day c = text_eq day c.day

abbrev pub is_of_model : Text → Text → Call → Bool
is_of_model day model c = text_eq day c.day && text_eq model c.model

day_of-record_call :
    (c : Call) (day : Text) (file : Option UsageLedgerFile)
    → day_of day (some (record_call c file))
      ≡ (if text_eq day c.day then add_to_day c (day_of day file) else day_of day file)
unfolding record_call day_of file_or_new
day_of-record_call c day file =
    let days = (file_or_new file).days in
    let d = add_to_day c (day_or_new (find c.day days)) in
    elim (Bool-cases (text_eq day c.day)) [
      | inl e ↦
          rw (find-put day c.day d days, e)
            (ap (λ k. add_to_day c (day_or_new (find k days))) (sym ((text_eq_iff day c.day).0 e)))
      | inr e ↦ rw (find-put day c.day d days, e) refl
    ]

record_call-totals :
    (c : Call) (day : Text) (file : Option UsageLedgerFile)
    → totals (day_of day (some (record_call c file))) ≡ (
        if is_of_day day c then add_call c (totals (day_of day file)) else totals (day_of day file))
unfolding add_to_day add_call
record_call-totals c day file = elim (Bool-cases (text_eq day c.day)) [
  | inl e ↦ rw (day_of-record_call c day file, e) refl
  | inr e ↦ rw (day_of-record_call c day file, e) refl
]

record_call-stat_of :
    (c : Call) (day model : Text) (file : Option UsageLedgerFile)
    → stat_of model (day_of day (some (record_call c file))) ≡ (
        if is_of_model day model c
        then add_call c (stat_of model (day_of day file))
        else stat_of model (day_of day file))
unfolding add_to_day stat_of stat_or_new
record_call-stat_of c day model file =
    let models = (day_of day file).models in
    let m = add_call c (stat_or_new (find c.model models)) in
    elim (Bool-cases (text_eq day c.day)) [
      | inr e ↦ rw (day_of-record_call c day file, e) refl
      | inl e ↦
          rw (day_of-record_call c day file, e)
            (elim (Bool-cases (text_eq model c.model)) [
              | inr f ↦ rw (find-put model c.model m models, f) refl
              | inl f ↦
                  rw (find-put model c.model m models, f)
                    (ap (λ k. add_call c (stat_or_new (find k models)))
                      (sym ((text_eq_iff model c.model).0 f)))
            ])
    ]

read_counts :
    (meant : Call → Bool) (read : Option UsageLedgerFile → UsageStat)
    → ((c : Call) (file : Option UsageLedgerFile)
        → read (some (record_call c file))
          ≡ (if meant c then add_call c (read file) else read file))
    → (cs : List Call) (file : Option UsageLedgerFile)
    → read (record_all cs file) ≡ tally meant cs (read file)
unfolding record_all tally
read_counts meant read one [] file = refl
read_counts meant read one (c ∷ cs) file =
    read_counts meant read one cs (some (record_call c file)) ∙ ap (tally meant cs) (one c file)

-- If every call's file is written and read by the next, then after any calls the totals of each day, and
-- the figures of each model on a day, are those that the file had at the start with the calls of the day, or
-- of the model on that day, counted on top.
pub record_all-tally :
    (day model : Text) (cs : List Call) (file : Option UsageLedgerFile)
    → (totals (day_of day (record_all cs file))
        ≡ tally (is_of_day day) cs (totals (day_of day file)))
      × (stat_of model (day_of day (record_all cs file))
          ≡ tally (is_of_model day model) cs (stat_of model (day_of day file)))
record_all-tally day model cs file = (
  read_counts (is_of_day day) (λ f. totals (day_of day f)) (λ c f. record_call-totals c day f) cs
      file,
  read_counts (is_of_model day model) (λ f. stat_of model (day_of day f))
      (λ c f. record_call-stat_of c day model f) cs file,
)

-- ===== src/Audit.antt =====
-- internal/audit/log.go
use orbit_telemetry_orchestr.Prelude.{
  ℕ, ◌+◌, ◌-◌, ◌%◌, ◌^◌, String, Bool, ◌&&◌, ◌||◌, List, [], ◌∷◌, ◌++◌, if◌then◌else◌, ◌==◌,
  string_eq, eqb, ltb, leb, ltb_text, ℤ, pos, negsuc, ◌<ℤ◌, pos_part, Time, zero_time, before,
  length, take, drop, keep, sort_slice, show_ℕ, show_ℤ, ◌+s◌,
}

pub record Entry : Type 0 where
  pub id : String
  pub actor : String
  pub action : String
  pub resource : String
  pub resource_id : String
  pub message : String
  pub changes : List (String × String)
  pub occurred_at : Time

pub record Filter : Type 0 where
  pub actor : String
  pub action : String
  pub resource : String
  pub limit : ℤ

-- `limit` is an `int` that `NewLog` makes at least 1, `sequence` a `uint64`.
pub record Log : Type 0 where
  pub limit : ℕ
  pub sequence : ℕ
  pub entries : List Entry

unfoldable pub new_log : ℤ → Log
new_log limit = record {
  limit = if limit <ℤ pos 1 then 1000 else pos_part limit;
  sequence = 0;
  entries = [];
}

-- `now.UnixNano()`; 1970 is 62135596800 seconds after the zero Time.
unix_nano : Time → ℤ
unix_nano t =
    let epoch : ℕ = zero_time + 62135596800000000000 in
    if leb epoch t then pos (t - epoch) else negsuc (epoch - t - 1)

-- The entries after `append`, cut to the last `limit` ones.
unfoldable pub trim_entries : ℕ → List Entry → List Entry
trim_entries limit xs = if ltb limit (length xs) then drop (length xs - limit) xs else xs

unfoldable pub record_entry :
    Log → String → String → String → String → String → List (String × String) → Time → Log × Entry
unfolding unix_nano trim_entries
record_entry l actor action resource resource_id message changes now =
    let sequence = (l.sequence + 1) % 2 ^ 64 in
    let entry : Entry = record {
      id = "audit-" +s show_ℤ (unix_nano now) +s "-" +s show_ℕ sequence;
      actor = actor;
      action = action;
      resource = resource;
      resource_id = resource_id;
      message = message;
      changes = changes;
      occurred_at = now;
    } in
    (
      record l { sequence = sequence; entries = trim_entries l.limit (l.entries ++ entry ∷ []) },
      entry,
    )

-- What the loop of `List` does not skip.
abbrev pub entry_matches : Filter → Entry → Bool
entry_matches f e =
    (f.actor == "" || f.actor == e.actor)
    && (f.action == "" || f.action == e.action)
    && (f.resource == "" || f.resource == e.resource)

-- The latest first, and the greater id first where two occurred at once.
abbrev pub entry_less : Entry → Entry → Bool
entry_less a b =
    if eqb a.occurred_at b.occurred_at
    then ltb_text b.id a.id
    else before b.occurred_at a.occurred_at

unfoldable pub list_entries : Log → Filter → List Entry
list_entries l f =
    let result = sort_slice entry_less (keep (entry_matches f) l.entries) in
    if (pos 0 <ℤ f.limit) && ltb (pos_part f.limit) (length result)
    then take (pos_part f.limit) result
    else result

unfoldable pub count : Log → ℕ
count l = length l.entries

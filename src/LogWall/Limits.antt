-- ===== src/LogWall/Limits.antt =====
-- Who gets the log, and how much of it.
use lustro_node_agent.Base.{
  ℕ, ℤ, pos, negsuc, ◌-◌, ◌*◌, ◌≤◌, ◌≡◌, refl, sym, subst, Bool, true, Bool-cases, Option, none,
  some, List, inl, inr, length, length-drop, ltb, arith,
}
use lustro_node_agent.Base.Text.{Text, text, text_eq, text_eq_sound}
use lustro_node_agent.Base.Value.{Value}
use lustro_node_agent.Base.Result.{ok, >>=-eq-ok, ok-injective}
use lustro_node_agent.Platform.{Platform}
use lustro_node_agent.JobLog.{TextFile}
use lustro_node_agent.LogWall.{
  send_records, send_json, Query, max_api_log_limit, in_range, limit_of, answer_limit, last_records,
  selected, serve_api_log, host_allowed, do_get, file_size,
}

in_range-some :
    (z : ℤ) (n : ℕ) → in_range z ≡ some n → (z ≡ pos n) × (1 ≤ n) × (n ≤ max_api_log_limit)
unfolding in_range
in_range-some (pos m) n h = ground arith
in_range-some (negsuc m) n h = ground arith

answer_limit-records :
    (o : Option ℕ) (records out : List Value)
    → answer_limit o records ≡ send_records out
    → (n : ℕ) × (o ≡ some n) × (out ≡ last_records n records)
unfolding answer_limit
answer_limit-records none records out h = cc
answer_limit-records (some n) records out h = (n, refl, cc)

json_not_records :
    {T : Type 0} (status : ℕ) (body : Value) (out : List Value)
    → send_json status body ≡ send_records out
    → T
json_not_records status body out h = cc

length-last_records : (n : ℕ) (records : List Value) → length (last_records n records) ≤ n
length-last_records n records = omega (arith, length-drop (length records - n) records)

module _ (P : Platform) where
  -- The records of an answer of the log API are the last ones of those that the filters select, as
  -- many as the limit says, which is from 1 to 1000.
  pub serve_api_log_bound :
      (params : Query) (file : TextFile) (out : List Value)
      → serve_api_log P params file ≡ ok (send_records out)
      → (n : ℕ) × (records : List Value) × (limit_of P.parse_int (params "limit") ≡ pos n)
        × (selected P params file ≡ ok records)
        × (out ≡ last_records n records)
        × (length out ≤ n)
        × (1 ≤ n)
        × (n ≤ max_api_log_limit)
  unfolding serve_api_log
  serve_api_log_bound params file out h =
      elim (Bool-cases (ltb (10 * 1024 * 1024) (file_size file))) [
        | inl large ↦ json_not_records _ _ out (ok-injective (rw large at h))
        | inr fits ↦
            let (records, chosen, sent) = >>=-eq-ok (selected P params file) _ (rw fits at h) in
            let (n, ranged, last) = answer_limit-records _ records out (ok-injective sent) in
            let (limit, least, most) = in_range-some _ n ranged in
            (
              n,
              records,
              limit,
              chosen,
              last,
              subst (λ (l : List Value). length l ≤ n) (sym last) (length-last_records n records),
              least,
              most,
            )
      ]

  do_get-serve :
      (is_ip : Text → Bool) (host : Option Text) (path : Text) (params : Query) (file : TextFile)
      (out : List Value)
      → do_get P is_ip host path params file ≡ ok (send_records out)
      → (host_allowed is_ip host ≡ true)
        × (text_eq path (text "/api/log") ≡ true)
        × (serve_api_log P params file ≡ ok (send_records out))
  unfolding do_get
  do_get-serve is_ip host path params file out h = ground arith

  -- Records of the log go out only to a request whose `Host` names localhost or a literal address,
  -- on the path /api/log, and at most 1000 of them.
  pub do_get-send_records :
      (is_ip : Text → Bool) (host : Option Text) (path : Text) (params : Query) (file : TextFile)
      (out : List Value)
      → do_get P is_ip host path params file ≡ ok (send_records out)
      → (host_allowed is_ip host ≡ true)
        × (path ≡ text "/api/log")
        × (length out ≤ max_api_log_limit)
  do_get-send_records is_ip host path params file out h =
      let (allowed, route, served) = do_get-serve is_ip host path params file out h in
      let (n, _, _, _, _, short, _, most) = serve_api_log_bound params file out served in
      (allowed, text_eq_sound _ _ route, omega (arith, short, most))

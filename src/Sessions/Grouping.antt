-- ===== src/Sessions/Grouping.antt =====
-- The loop over all rows gives every session what its own rows give it alone.
use frontend_observability.Base.{
  ℕ, String, Bool, true, false, not, ◌&&◌, Option, none, some, List, [], ◌∷◌, ◌≡◌, refl, sym, ap,
  ◌∙◌, str_eq, eq_iff, if◌then◌else◌, or_else, is_some, in_either, arith,
}
use frontend_observability.Base.Json.{Value, Num, object, get_field}
use frontend_observability.Sessions.Rows.{Row, find_unsafe_key}
use frontend_observability.Sessions.Aggregate.{
  Session, create_empty_session, extend, positive, session_id_of, Aggregate, find_session,
  put_session, timestamp_of, add_identities, add_texts, add_row, take_row, aggregate_row,
  aggregate_rows, empty_aggregate,
}

module _ {ℓ} {A : Type ℓ} (x y z : A) where
  skip_same : (c d : Bool) → d ≡ c → (if c then x else y) ≡ (if c then x else if d then z else y)
  skip_same true d e = refl
  skip_same false true e = cc
  skip_same false false e = refl

  swap_tests :
      (w : A) (c d : Bool)
      → (c ≡ true → d ≡ true → ⊥)
      → w ≡ (if c then x else y)
      → (if d then z else w) ≡ (if c then x else if d then z else y)
  swap_tests w true true apart e = absurd (apart refl refl)
  swap_tests w true false apart e = e
  swap_tests w false true apart e = refl
  swap_tests w false false apart e = e

pub find_session-put_session :
    (id : String) (new : Session) (ss : List Session)
    → find_session id (put_session new ss)
      ≡ (if str_eq new.session_id id then some new else find_session id ss)
find_session-put_session id new [] = refl
find_session-put_session id new (s ∷ ss) =
    in_either
      (λ x.
        find_session id x
        ≡ (if str_eq new.session_id id then some new else find_session id (s ∷ ss)))
      (str_eq s.session_id new.session_id)
      (λ e.
        skip_same (some new) (find_session id ss) (some s) (str_eq new.session_id id)
          (str_eq s.session_id id)
          (ap (λ x. str_eq x id) ((eq_iff s.session_id new.session_id).0 e)))
      (λ e.
        swap_tests (some new) (find_session id ss) (some s) (find_session id (put_session new ss))
          (str_eq new.session_id id) (str_eq s.session_id id)
          (λ c d. differ (((eq_iff s.session_id id).0 d) ∙ sym ((eq_iff new.session_id id).0 c)) e)
          (find_session-put_session id new ss))
  where
    differ : s.session_id ≡ new.session_id → str_eq s.session_id new.session_id ≡ false → ⊥
    differ same apart = ground (arith, eq_iff s.session_id new.session_id)

extend-session_id : (ts : Option ℕ) (s : Session) → (extend ts s).session_id ≡ s.session_id
unfolding extend
extend-session_id none s = refl
extend-session_id (some ts) s = refl

abbrev is_id : Option String → String → Bool
is_id none id = false
is_id (some other) id = str_eq other id

-- A row with no unsafe key that names this session.
abbrev pub is_safe_for : Option String → Option String → String → Bool
is_safe_for unsafe named id = not (is_some unsafe) && is_id named id

abbrev pub belongs_to : String → Row → Bool
belongs_to id row =
    is_safe_for (find_unsafe_key (object row)) (session_id_of (get_field "session_id" row)) id

abbrev pub own_rows : String → List Row → List Row
own_rows id [] = []
own_rows id (row ∷ rows) = if belongs_to id row then row ∷ own_rows id rows else own_rows id rows

module _ (number times_1000 : Value → Num) (print : Value → String) where
  add_row-session_id :
      (row : Row) (s : Session) → (add_row number times_1000 print row s).session_id ≡ s.session_id
  unfolding add_row add_texts add_identities
  add_row-session_id row s =
      extend-session_id (positive (timestamp_of number times_1000 print row)) s

  -- One session's rows, one after the other; none before the first.
  abbrev pub read_rows : String → List Row → Option Session → Option Session
  read_rows id [] o = o
  read_rows id (row ∷ rows) o =
      read_rows id rows
        (some (add_row number times_1000 print row (or_else o (create_empty_session id))))

  abbrev read_row : String → Row → Option Session → Session
  read_row id row o = add_row number times_1000 print row (or_else o (create_empty_session id))

  found_id :
      (id : String) (ss : List Session)
      → (or_else (find_session id ss) (create_empty_session id)).session_id ≡ id
  unfolding create_empty_session
  found_id id [] = refl
  found_id id (s ∷ ss) =
      in_either (λ o. (or_else o (create_empty_session id)).session_id ≡ id)
        (str_eq s.session_id id) (λ e. (eq_iff s.session_id id).0 e) (λ e. found_id id ss)

  find_session-take_row :
      (id : String) (now_us : ℕ) (row : Row) (unsafe named : Option String) (a : Aggregate)
      → find_session id (take_row number times_1000 print now_us row unsafe named a).sessions ≡ (
          if is_safe_for unsafe named id
          then some (read_row id row (find_session id a.sessions))
          else find_session id a.sessions)
  unfolding take_row
  find_session-take_row id now_us row (some path) named a = refl
  find_session-take_row id now_us row none none a = refl
  find_session-take_row id now_us row none (some other) a =
      let new = read_row other row (find_session other a.sessions) in
      let named =
        add_row-session_id row
          (or_else (find_session other a.sessions) (create_empty_session other))
        ∙ found_id other a.sessions in
      find_session-put_session id new a.sessions
      ∙ ap (λ x. if str_eq x id then some new else find_session id a.sessions) named
      ∙ same_session (str_eq other id) (λ e. (eq_iff other id).0 e)
    where
      same_session :
          (b : Bool)
          → (b ≡ true → other ≡ id)
          → (if b
              then some (read_row other row (find_session other a.sessions))
              else find_session id a.sessions)
            ≡ (if b
                then some (read_row id row (find_session id a.sessions))
                else find_session id a.sessions)
      same_session true e = ap (λ x. some (read_row x row (find_session x a.sessions))) (e refl)
      same_session false e = refl

  find_session-aggregate_rows :
      (id : String) (now_us : ℕ) (rows : List Row) (a : Aggregate)
      → find_session id (aggregate_rows number times_1000 print now_us rows a).sessions
        ≡ read_rows id (own_rows id rows) (find_session id a.sessions)
  unfolding aggregate_rows aggregate_row
  find_session-aggregate_rows id now_us [] a = refl
  find_session-aggregate_rows id now_us (row ∷ rows) a =
      let next = aggregate_row number times_1000 print now_us row a in
      find_session-aggregate_rows id now_us rows next
      ∙ ap (read_rows id (own_rows id rows)) (find_session-take_row id now_us row _ _ a)
      ∙ one_row (belongs_to id row)
    where
      one_row :
          (b : Bool)
          → read_rows id (own_rows id rows) (
              if b
              then some (read_row id row (find_session id a.sessions))
              else find_session id a.sessions)
            ≡ read_rows id
                (if b then row ∷ own_rows id rows else own_rows id rows)
                (find_session id a.sessions)
      one_row true = refl
      one_row false = refl

  -- Whatever rows are read: the session that the loop keeps for an identity is the one that the session's
  -- own rows give, read alone in their order from an empty session, and none where it has no row; a row
  -- of another session or with an unsafe key contributes nothing to it.
  pub aggregate_rows-read_rows :
      (id : String) (now_us : ℕ) (rows : List Row)
      → find_session id
          (aggregate_rows number times_1000 print now_us rows empty_aggregate).sessions
        ≡ read_rows id (own_rows id rows) none
  aggregate_rows-read_rows id now_us rows =
      find_session-aggregate_rows id now_us rows empty_aggregate

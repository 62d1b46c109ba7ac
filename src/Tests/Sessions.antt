-- ===== src/Tests/Sessions.antt =====
-- Sessions over a Redis that is a function from keys to lists and always answers.
use multimodal_rag.Prelude.{
  ℕ, ◌≡◌, refl, sym, inl, ap, none, List, [], ◌∷◌, ◌++◌, map, length, take, drop, arith,
}
use multimodal_rag.Prelude.Text.{Text, text, text_eq}
use multimodal_rag.Prelude.Sort.{sort_desc, insert_desc}
use multimodal_rag.Errors.{app, conflict, other}
use multimodal_rag.Exec.{Result, ok, raised, ok-pair}
use multimodal_rag.Generation.{Turn}
use multimodal_rag.SessionCache.{Redis, Codec, RedisLaws, Command, apply_all, clear_session_cache}
use multimodal_rag.Sessions.{
  active, Session, SessionTurn, Store, NewTurn, get_session, turns_of, row_of, add_turn,
  get_working_memory, end_session,
}
use multimodal_rag.Sessions.Route.{end_route}
use multimodal_rag.Sessions.Coherence.{said, said_row, Warm, Up}
use multimodal_rag.Sessions.Memory.{
  add_turn-Warm, get_working_memory_lem, get_working_memory-add_turn,
}
use multimodal_rag.Sessions.Ending.{end_session_lem}
use multimodal_rag.Sessions.Closing.{end_route-twice}
use multimodal_rag.SessionCache.{tail_slice}

abbrev pub World : Type 0
World = Text → List Text

abbrev pub server : Redis World
server = record {
  execute = λ cs c. (ok tt, λ k. apply_all k cs (c k));
  lrange = λ k c. (ok (c k), c);
  delete = λ k c. (ok tt, λ j. apply_all j (Command.del k ∷ []) (c j));
  contents = λ k c. c k;
}

pub server-RedisLaws : RedisLaws server
server-RedisLaws = record {
  executed = λ cs c d e k. ap (λ w. w k) (fields e);
  ranged = λ k xs c d e. (sym (read e), λ j. ap (λ w. w j) (sym (kept e)));
}
  where
    fields : {w d : World} → ◌≡◌ {A = Result (Unit {0}) × World} (ok tt, w) (ok tt, d) → d ≡ w
    fields {w} {d} e = sym (ok-pair tt tt w d e).1

    read :
        {xs ys : List Text} {c d : World}
        → ◌≡◌ {A = Result (List Text) × World} (ok xs, c) (ok ys, d)
        → xs ≡ ys
    read {xs} {ys} {c} {d} e = (ok-pair xs ys c d e).0

    kept :
        {xs ys : List Text} {c d : World}
        → ◌≡◌ {A = Result (List Text) × World} (ok xs, c) (ok ys, d)
        → c ≡ d
    kept {xs} {ys} {c} {d} e = (ok-pair xs ys c d e).1

pub server-Up : Up server
server-Up = record { executes = λ cs c. (_, refl); ranges = λ k c. (_, _, refl) }

-- the time, the length of the role, and both texts
abbrev decode : Text → Result Turn
decode [] = raised other
decode (t ∷ []) = raised other
decode (t ∷ n ∷ s) = ok (record { role = take n s; content = drop n s; timestamp = t })

abbrev pub codec : Codec
codec = record { dumps = λ t. t.timestamp ∷ length t.role ∷ t.role ++ t.content; loads = decode }

pub codec-law : (t : Turn) → codec.loads (codec.dumps t) ≡ ok t
codec-law t = rw (taken t.role t.content, dropped t.role t.content) refl
  where
    taken : (xs ys : Text) → take (length xs) (xs ++ ys) ≡ xs
    taken [] ys = refl
    taken (x ∷ xs) ys = ap (λ l. x ∷ l) (taken xs ys)

    dropped : (xs ys : Text) → drop (length xs) (xs ++ ys) ≡ ys
    dropped [] ys = refl
    dropped (x ∷ xs) ys = dropped xs ys

abbrev pub session : Session
session = record {
  id = 7 ∷ [];
  user_id = 1 ∷ [];
  turn_count = 2;
  ended_at = none;
  status = active;
  created_at = 5;
}

abbrev old : ℕ → SessionTurn
old n = record {
  id = n ∷ [];
  session_id = 7 ∷ [];
  user_id = 1 ∷ [];
  role = text "user";
  content = n ∷ [];
  sources = none;
  critic_passed = none;
  latency_ms = none;
  created_at = n;
}

-- two durable turns, and nothing in the cache
abbrev pub cold : Store World
cold = record { sessions = session ∷ []; turns = old 10 ∷ old 20 ∷ []; cache = λ k. []; queue = [] }

-- the same with both turns cached
abbrev warm : Store World
warm = record {
  sessions = session ∷ [];
  turns = old 10 ∷ old 20 ∷ [];
  cache = λ k. map codec.dumps (
      record { role = text "user"; content = 10 ∷ []; timestamp = 11 }
      ∷ record { role = text "user"; content = 20 ∷ []; timestamp = 21 }
      ∷ []);
  queue = [];
}

abbrev new : NewTurn
new = record {
  role = text "user";
  content = 65 ∷ [];
  sources = none;
  critic_passed = none;
  latency_ms = none;
}

pub got :
    (s : Store World)
    → s.sessions ≡ session ∷ []
    → get_session (1 ∷ []) (7 ∷ []) s ≡ (ok session, s)
unfolding get_session text_eq
got s e = rw e refl

warm-Warm : Warm server codec 6 (7 ∷ []) warm
unfolding turns_of sort_desc insert_desc text_eq
warm-Warm = record {
  cached =
      record { role = text "user"; content = 10 ∷ []; timestamp = 11 }
      ∷ record { role = text "user"; content = 20 ∷ []; timestamp = 21 }
      ∷ [];
  held = refl;
  recent = refl;
}

add_turn-Warm_example :
    (t : Store World) × (add_turn server codec 6 3600 (9 ∷ []) 30 31 (1 ∷ []) (7 ∷ []) new warm
      ≡ (ok (row_of (9 ∷ []) (1 ∷ []) (7 ∷ []) 30 new), t))
    × (turns_of (7 ∷ []) t.turns
        ≡ turns_of (7 ∷ []) warm.turns ++ row_of (9 ∷ []) (1 ∷ []) (7 ∷ []) 30 new ∷ [])
    × Warm server codec 6 (7 ∷ []) t
add_turn-Warm_example =
    add_turn-Warm server server-RedisLaws server-Up codec codec-law 6 3600 (9 ∷ []) (1 ∷ [])
      (7 ∷ []) 30 31 new session warm (got warm refl) refl (omega arith, (omega arith, tt))
      warm-Warm

get_working_memory_lem_example :
    (xs : List Turn) × (t : Store World) × (get_working_memory server codec 6 3600
        (1 ∷ [])
        (7 ∷ [])
        cold
      ≡ (ok xs, t))
    × (map said xs ≡ map said_row (tail_slice 6 (turns_of (7 ∷ []) cold.turns)))
    × Warm server codec 6 (7 ∷ []) t
    × (t.turns ≡ cold.turns)
    × (t.sessions ≡ cold.sessions)
get_working_memory_lem_example =
    get_working_memory_lem server server-RedisLaws server-Up codec codec-law 6 3600 (1 ∷ [])
      (7 ∷ []) session cold (got cold refl) (inl refl)

get_working_memory-add_turn_example :
    (t : Store World) × (u : Store World) × (add_turn server codec 6 3600
        (9 ∷ [])
        30
        31
        (1 ∷ [])
        (7 ∷ [])
        new
        cold
      ≡ (ok (row_of (9 ∷ []) (1 ∷ []) (7 ∷ []) 30 new), t))
    × (t.turns ≡ cold.turns ++ row_of (9 ∷ []) (1 ∷ []) (7 ∷ []) 30 new ∷ [])
    × (get_working_memory server codec 6 3600 (1 ∷ []) (7 ∷ []) t
        ≡ (ok (record { role = text "user"; content = 65 ∷ []; timestamp = 31 } ∷ []), u))
get_working_memory-add_turn_example =
    get_working_memory-add_turn server server-RedisLaws server-Up codec codec-law 6 3600 (9 ∷ [])
      (1 ∷ []) (7 ∷ []) 30 31 new session cold (omega arith) (got cold refl) refl refl

end_session_lem_example :
    (ended : Session) × (t : Store World) × (end_session server codec 6 3600
        (1 ∷ [])
        (7 ∷ [])
        40
        cold
      ≡ (ok ended, t))
    × ((later : ℕ)
        → end_session server codec 6 3600 (1 ∷ []) (7 ∷ []) later t
          ≡ (raised (app (conflict (text "Session has already ended."))), t))
    × ((new_id : Text) (at pushed_at : ℕ) (new : NewTurn)
        → add_turn server codec 6 3600 new_id at pushed_at (1 ∷ []) (7 ∷ []) new t
          ≡ (raised (app (conflict (text "Cannot add a turn to an ended session."))), t))
unfolding clear_session_cache
end_session_lem_example =
    end_session_lem server codec 6 3600 (1 ∷ []) (7 ∷ []) 40 session cold _ (got cold refl) refl
      refl

end_route-twice_run :
    (end_route (1 ∷ []) (7 ∷ []) (end_route (1 ∷ []) (7 ∷ []) cold).1).1
    ≡ (end_route (1 ∷ []) (7 ∷ []) cold).1
end_route-twice_run = end_route-twice (1 ∷ []) (7 ∷ []) cold

-- ===== src/Nodes/Resources/Handed.antt =====
-- bull-queue.js: what the configuration node does with the resources and connections that it made.
use node_red_contrib_bull.Prelude.{
  String, ℕ, suc, ◌≡◌, refl, Bool, true, false, ◌||◌, List, [], ◌∷◌, Option, none, some, ltb, All,
  if◌then◌else◌, arith, ◌∙◌, ap, sym,
}
use node_red_contrib_bull.Js.Value.{Result, ok, err}
use node_red_contrib_bull.Connections.Options.{Role}
use node_red_contrib_bull.Nodes.Resources.{
  Settings, Tracked, Server, fresh, Construction, built, throws, take_owner, track, release_taken,
  release_resource, on_close, create_for, create_resource, keep_queue, get_queue, get_queue_of,
  create_worker, create_queue_events, create_flow_producer, Request, gets_queue, creates_worker,
  creates_flow_producer, creates_queue_events, releases, closes, serve, serve_all,
}
use node_red_contrib_bull.Nodes.Resources.Counts.{
  count, owned, connected_at, total, total-release, total-on_close, total-track, closed_count,
}

-- On Redis, the constructor of the resource throws.
abbrev construction_of : Request → Construction
construction_of (gets_queue installed c) = c
construction_of (creates_worker installed c) = c
construction_of (creates_flow_producer installed c) = c
construction_of (creates_queue_events c) = c
construction_of (releases owner) = built
construction_of closes = built

abbrev is_built : Construction → Bool
is_built built = true
is_built (throws kind m) = false

unfoldable pub succeeds : Settings → Request → Bool
succeeds settings q = settings.postgres || is_built (construction_of q)

-- Every resource and every connection that was made is one entry, tracked or handed over.
pub record IsHeld (settings : Settings) (s : Server) : Type 0 where
  pub owners : (k : ℕ) → total (owned k) s ≡ (if ltb k s.constructed then 1 else 0)
  pub connections : (a : ℕ) → total (connected_at a) s ≡ (if ltb a s.opened then 1 else 0)
  pub numbers : s.opened ≡ (if settings.postgres then 0 else s.constructed)

-- The entry of the next resource, with or without the next connection.
track-IsHeld :
    (settings : Settings) (s : Server)
    → settings.postgres ≡ true
    → IsHeld settings s
    → IsHeld settings (track (record { owner = s.constructed; connection = none }) s)
unfolding total
track-IsHeld settings s postgres h =
    let t : Tracked = record { owner = s.constructed; connection = none } in
    record {
      owners = λ k. ground (arith, total-track (owned k) t s, h.owners k);
      connections = λ a. ground (arith, total-track (connected_at a) t s, h.connections a);
      numbers = ground (arith, h.numbers);
    }

track_redis-IsHeld :
    (settings : Settings) (role : Role) (s : Server)
    → settings.postgres ≡ false
    → IsHeld settings s
    → IsHeld settings (
        track
          (record {
            owner = s.constructed;
            connection = some (record { address = s.opened; role = role });
          })
          (record s { opened = suc s.opened }))
unfolding total
track_redis-IsHeld settings role s redis h =
    let t : Tracked = record {
      owner = s.constructed;
      connection = some (record { address = s.opened; role = role });
    } in
    record {
      owners = λ k. ground (arith, total-track (owned k) t s, h.owners k);
      connections = λ a. ground (arith, total-track (connected_at a) t s, h.connections a);
      numbers = ground (arith, h.numbers);
    }

-- A step that leaves the resources, what was handed over and the numbers as they are.
pub IsHeld-same :
    (settings : Settings) (s s' : Server)
    → s'.resources ≡ s.resources
    → s'.handed ≡ s.handed
    → s'.opened ≡ s.opened
    → s'.constructed ≡ s.constructed
    → IsHeld settings s
    → IsHeld settings s'
unfolding total
IsHeld-same settings s s' tracked given opened constructed h = record {
  owners = λ k. rw (tracked, given, constructed) (h.owners k);
  connections = λ a. rw (tracked, given, opened) (h.connections a);
  numbers = rw (opened, constructed) h.numbers;
}

release_numbers :
    (o : Option (Tracked × List Tracked)) (s : Server)
    → ((release_taken o s).constructed ≡ s.constructed) × ((release_taken o s).opened ≡ s.opened)
unfolding release_taken
release_numbers none s = (refl, refl)
release_numbers (some (t, rest)) s = (refl, refl)

release-IsHeld :
    (settings : Settings) (owner : ℕ) (s : Server)
    → IsHeld settings s
    → IsHeld settings (release_resource owner s)
unfolding release_resource
release-IsHeld settings owner s h =
    let (constructed, opened) = release_numbers (take_owner owner s.resources) s in
    record {
      owners = λ k.
          total-release (owned k) owner s
          ∙ h.owners k
          ∙ ap (λ n. if ltb k n then 1 else 0) (sym constructed);
      connections = λ a.
          total-release (connected_at a) owner s
          ∙ h.connections a
          ∙ ap (λ n. if ltb a n then 1 else 0) (sym opened);
      numbers = opened ∙ h.numbers ∙ ap (λ n. if settings.postgres then 0 else n) (sym constructed);
    }

close-IsHeld : (settings : Settings) (s : Server) → IsHeld settings s → IsHeld settings (on_close s)
unfolding on_close
close-IsHeld settings s h = record {
  owners = λ k. total-on_close (owned k) s ∙ h.owners k;
  connections = λ a. total-on_close (connected_at a) s ∙ h.connections a;
  numbers = h.numbers;
}

-- What was handed over when the configuration node has closed.
pub on_close-handed :
    (settings : Settings) (s : Server) (k a : ℕ)
    → IsHeld settings s
    → ((on_close s).resources ≡ [])
      × (count (owned k) (on_close s).handed ≡ (if ltb k s.constructed then 1 else 0))
      × (count (connected_at a) (on_close s).handed ≡ (if ltb a s.opened then 1 else 0))
      × (s.opened ≡ (if settings.postgres then 0 else s.constructed))
unfolding on_close
on_close-handed settings s k a h = (
  refl,
  closed_count (owned k) s ∙ h.owners k,
  closed_count (connected_at a) s ∙ h.connections a,
  h.numbers,
)

module _ (minimum_version recommended_version : String) (settings : Settings) where
  create_for-IsHeld :
      (postgres : Bool) (role : Role) (c : Construction) (s : Server)
      → settings.postgres ≡ postgres
      → postgres || is_built c ≡ true
      → IsHeld settings s
      → IsHeld settings
          (create_for minimum_version recommended_version settings postgres role c s).1
  create_for-IsHeld true role built s same fine h = track-IsHeld settings s same h
  create_for-IsHeld true role (throws kind m) s same fine h =
      IsHeld-same settings s _ refl refl refl refl h
  create_for-IsHeld false role built s same fine h = track_redis-IsHeld settings role s same h
  create_for-IsHeld false role (throws kind m) s same fine h = absurd (ground (arith, fine))

  create-IsHeld :
      (role : Role) (c : Construction) (s : Server)
      → settings.postgres || is_built c ≡ true
      → IsHeld settings s
      → IsHeld settings (create_resource minimum_version recommended_version settings role c s).1
  unfolding create_resource
  create-IsHeld role c s fine h = create_for-IsHeld settings.postgres role c s refl fine h

  keep_queue-IsHeld :
      (r : Result (Option Tracked) × Server)
      → IsHeld settings r.1
      → IsHeld settings (keep_queue minimum_version recommended_version settings r).1
  keep_queue-IsHeld (err e, s) h = h
  keep_queue-IsHeld (ok none, s) h = h
  keep_queue-IsHeld (ok (some t), s) h = IsHeld-same settings s _ refl refl refl refl h

  get_queue_of-IsHeld :
      (q : Option ℕ) (installed : Bool) (c : Construction) (s : Server)
      → settings.postgres || is_built c ≡ true
      → IsHeld settings s
      → IsHeld settings
          (get_queue_of minimum_version recommended_version settings q installed c s).1
  get_queue_of-IsHeld (some q) installed c s fine h = h
  get_queue_of-IsHeld none installed c s fine h =
      keep_queue-IsHeld _
        (create-IsHeld _ c _ fine (IsHeld-same settings s _ refl refl refl refl h))

  pub serve-IsHeld :
      (s : Server) (q : Request)
      → succeeds settings q ≡ true
      → IsHeld settings s
      → IsHeld settings (serve minimum_version recommended_version settings s q)
  unfolding serve succeeds get_queue create_worker create_queue_events create_flow_producer
  serve-IsHeld s (gets_queue installed c) fine h = get_queue_of-IsHeld s.queue installed c s fine h
  serve-IsHeld s (creates_worker installed c) fine h =
      create-IsHeld _ c _ fine (IsHeld-same settings s _ refl refl refl refl h)
  serve-IsHeld s (creates_flow_producer installed c) fine h =
      create-IsHeld _ c _ fine (IsHeld-same settings s _ refl refl refl refl h)
  serve-IsHeld s (creates_queue_events c) fine h = create-IsHeld _ c s fine h
  serve-IsHeld s (releases owner) fine h = release-IsHeld settings owner s h
  serve-IsHeld s closes fine h = close-IsHeld settings s h

  pub serve_all-IsHeld :
      (s : Server) (qs : List Request)
      → All (λ q. succeeds settings q ≡ true) qs
      → IsHeld settings s
      → IsHeld settings (serve_all minimum_version recommended_version settings s qs)
  unfolding serve_all
  serve_all-IsHeld s [] fine h = h
  serve_all-IsHeld s (q ∷ qs) (first, rest) h =
      serve_all-IsHeld (serve minimum_version recommended_version settings s q) qs rest
        (serve-IsHeld s q first h)

  pub fresh-IsHeld : IsHeld settings fresh
  unfolding total count
  fresh-IsHeld = record {
    owners = λ k. ground arith;
    connections = λ a. ground arith;
    numbers = ground arith;
  }

  -- After any requests of the nodes in any order, the close of the configuration node leaves nothing in the Map of
  -- its resources, and each resource, and each connection, that it ever made has been handed over to be closed
  -- exactly once, at the close or before it. It made as many connections as resources on Redis, and none on
  -- PostgreSQL. On Redis the constructors of BullMQ are assumed not to throw; on PostgreSQL they may.
  pub serve_all-on_close :
      (qs : List Request) (k a : ℕ)
      → All (λ q. succeeds settings q ≡ true) qs
      → let s = serve_all minimum_version recommended_version settings fresh qs in
        ((on_close s).resources ≡ [])
        × (count (owned k) (on_close s).handed ≡ (if ltb k s.constructed then 1 else 0))
        × (count (connected_at a) (on_close s).handed ≡ (if ltb a s.opened then 1 else 0))
        × (s.opened ≡ (if settings.postgres then 0 else s.constructed))
  serve_all-on_close qs k a fine =
      on_close-handed settings _ k a (serve_all-IsHeld fresh qs fine fresh-IsHeld)

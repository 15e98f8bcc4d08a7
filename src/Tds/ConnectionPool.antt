-- ===== src/Tds/ConnectionPool.antt =====
-- ConnectionPool of src/tds/tds_connection_pool.cpp: what each thread does to the shared state while it
-- holds pool_mutex_. A connection is known by its address; whether it is alive, idle for long or
-- answers a ping is for the network to say, and is a parameter of each operation.
pub mod Invariant
pub mod Acquire
pub mod Release
pub mod CleanUp
pub mod Steps
pub mod Limit
pub mod Growth
pub mod LimitBound
use mssql_extension.Prelude.{
  Bool, List, Option, [], false, if◌then◌else◌, leb, length, ltb, none, not, some, suc, true, zero,
  ℕ, ◌&&◌, ◌++◌, ◌+◌, ◌-◌, ◌==◌, ◌^◌, ◌||◌, ◌∷◌,
}

pub record Health : Type 0 where
  pub is_alive : Bool
  pub is_long_idle : Bool
  pub answers_ping : Bool
  -- GetState() == ConnectionState::Idle
  pub is_idle : Bool

pub record PoolConfiguration : Type 0 where
  pub connection_limit : ℕ
  pub connection_cache : Bool
  pub idle_timeout : ℕ
  pub min_connections : ℕ

pub record IdleConnection : Type 0 where
  pub connection : ℕ
  pub connection_id : ℕ
  pub last_released : ℕ

-- Counters of connections are far below 2^64; only going below 0 would wrap.
pub record ConnectionPool : Type 0 where
  pub idle_connections : List IdleConnection
  pub active_connections : List (ℕ × ℕ)
  pub total_count : ℕ
  pub idle_count : ℕ
  pub active_count : ℕ
  pub created_count : ℕ
  pub closed_count : ℕ
  pub next_connection_id : ℕ
  pub is_shut_down : Bool

-- `--` on size_t.
abbrev pub decrement : ℕ → ℕ
decrement zero = 2 ^ 64 - 1
decrement (suc n) = n

-- `active_connections_[id] = conn`
abbrev pub set_active : ℕ → ℕ → List (ℕ × ℕ) → List (ℕ × ℕ)
set_active id conn [] = (id, conn) ∷ []
set_active id conn ((k, c) ∷ rest) =
    if k == id then (id, conn) ∷ rest else (k, c) ∷ set_active id conn rest

-- The first entry with the connection: its id, 0 if there is none, and the map without it.
abbrev pub find_active : ℕ → List (ℕ × ℕ) → ℕ
find_active conn [] = 0
find_active conn ((k, c) ∷ rest) = if c == conn then k else find_active conn rest

abbrev pub erase_active : ℕ → List (ℕ × ℕ) → List (ℕ × ℕ)
erase_active conn [] = []
erase_active conn ((k, c) ∷ rest) = if c == conn then rest else (k, c) ∷ erase_active conn rest

abbrev pub is_active : ℕ → List (ℕ × ℕ) → Bool
is_active conn [] = false
is_active conn ((k, c) ∷ rest) = if c == conn then true else is_active conn rest

unfoldable pub validate_connection : Health → Bool
validate_connection h =
    if not h.is_alive then false else if h.is_long_idle then h.answers_ping else true

unfoldable pub count_closed : ConnectionPool → ConnectionPool
count_closed p = record p {
  closed_count = suc p.closed_count;
  total_count = decrement p.total_count;
}

unfoldable pub activate : ℕ → ℕ → ConnectionPool → ConnectionPool
activate id conn p = record p {
  active_connections = set_active id conn p.active_connections;
  active_count = suc p.active_count;
}

unfoldable pub pop_idle : List IdleConnection → ConnectionPool → ConnectionPool
pop_idle rest p = record p { idle_connections = rest; idle_count = decrement p.idle_count }

-- The loop of TryAcquireIdle; the list is idle_connections_.
unfoldable pub take_idle :
    (ℕ → Health) → List IdleConnection → ConnectionPool → Option ℕ × ConnectionPool
take_idle health [] p = (none, p)
take_idle health (m ∷ rest) p =
    let dropped = take_idle health rest (count_closed (pop_idle rest p)) in
    if validate_connection (health m.connection)
    then (some m.connection, activate m.connection_id m.connection (pop_idle rest p))
    else dropped

unfoldable pub try_acquire_idle : (ℕ → Health) → ConnectionPool → Option ℕ × ConnectionPool
try_acquire_idle health p = take_idle health p.idle_connections p

-- Acquire's test before it drops the lock to make a connection, and what it does with the connection
-- once it has the lock again.
unfoldable pub may_create : PoolConfiguration → ConnectionPool → Bool
may_create config p = ltb p.total_count config.connection_limit

unfoldable pub add_connection : ℕ → ConnectionPool → ConnectionPool
add_connection conn p =
    let q = activate p.next_connection_id conn p in
    record q {
      next_connection_id = suc p.next_connection_id;
      total_count = suc p.total_count;
      created_count = suc p.created_count;
    }

unfoldable pub remove_active : ℕ → ConnectionPool → ConnectionPool
remove_active conn p =
    if is_active conn p.active_connections
    then record p {
      active_connections = erase_active conn p.active_connections;
      active_count = decrement p.active_count;
    }
    else p

unfoldable pub push_idle : ℕ → ℕ → ℕ → ConnectionPool → ConnectionPool
push_idle conn id now p = record p {
  idle_connections =
      p.idle_connections
      ++ (record { connection = conn; connection_id = id; last_released = now } ∷ []);
  idle_count = suc p.idle_count;
}

-- A connection that was not found gets a new id.
unfoldable pub return_idle : ℕ → ℕ → ℕ → ConnectionPool → ConnectionPool
return_idle conn found_id now p =
    if found_id == 0
    then (let q = push_idle conn p.next_connection_id now p in
        record q { next_connection_id = suc p.next_connection_id })
    else push_idle conn found_id now p

unfoldable pub release : PoolConfiguration → (ℕ → Health) → ℕ → ℕ → ConnectionPool → ConnectionPool
release config health now conn p =
    let found_id = find_active conn p.active_connections in
    let q = remove_active conn p in
    let h = health conn in
    if p.is_shut_down
    then p
    else if not h.is_idle || not config.connection_cache || not h.is_alive
    then count_closed q
    else return_idle conn found_id now q

-- The loop of CleanupThreadFunc: `remaining` in order, and what is still to be looked at.
unfoldable pub clean_idle :
    PoolConfiguration
    → ℕ
    → ℕ
    → List IdleConnection
    → List IdleConnection
    → ConnectionPool
    → ConnectionPool
clean_idle config now to_keep remaining [] p = record p { idle_connections = remaining }
clean_idle config now to_keep remaining (m ∷ rest) p =
    let kept = clean_idle config now to_keep (remaining ++ (m ∷ [])) rest p in
    let closed =
      clean_idle config now to_keep remaining rest
        (count_closed (record p { idle_count = decrement p.idle_count })) in
    if ltb config.idle_timeout (now - m.last_released) && leb to_keep (length remaining)
    then closed
    else kept

unfoldable pub clean_up : PoolConfiguration → ℕ → ConnectionPool → ConnectionPool
clean_up config now p =
    if p.is_shut_down || config.idle_timeout == 0
    then p
    else clean_idle config now (config.min_connections - p.active_count) [] p.idle_connections p

-- Shutdown's first critical section. It holds the lock again once the cleanup thread has been joined.
unfoldable pub signal_shutdown : ConnectionPool → ConnectionPool
signal_shutdown p = record p { is_shut_down = true }

unfoldable pub close_all : ConnectionPool → ConnectionPool
close_all p = record p {
  idle_connections = [];
  active_connections = [];
  closed_count = p.closed_count + length p.idle_connections + length p.active_connections;
  total_count = 0;
  idle_count = 0;
  active_count = 0;
}

abbrev pub new_pool : ConnectionPool
new_pool = record {
  idle_connections = [];
  active_connections = [];
  total_count = 0;
  idle_count = 0;
  active_count = 0;
  created_count = 0;
  closed_count = 0;
  next_connection_id = 1;
  is_shut_down = false;
}

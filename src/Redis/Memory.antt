-- ===== src/Redis/Memory.antt =====
-- A Redis in memory: a concrete store that meets `IsRedis`, so that instances can run.
use live_r.Base.{
  ℕ, zero, suc, ◌+◌, ◌-◌, min, true, ◌≡◌, refl, List, [], ◌∷◌, Option, none, some, if◌then◌else◌,
  is_some, length, arith, ap,
}
use live_r.Base.Text.{Str}
use live_r.Base.Equality.{str_eq, ◌==◌, eq_iff}
use live_r.Base.Decimal.{ℤ, pos, negsuc, le_ℤ}
use live_r.Base.Dict
use live_r.Base.Dict.{Dict}
use live_r.Base.Dict.Laws
use live_r.Base.Sets
use live_r.Redis.{Redis, IsRedis, above, is_due, up_to}

pub record Store : Type 0 where
  pub zsets : Str → Dict Str ℕ
  pub sets : Str → List Str
  pub due : Str → Option ℕ

abbrev update : {A : Type 0} → (Str → A) → Str → A → Str → A
update f k a j = if k == j then a else f j

-- The keys, each once.
unfoldable pub keys : Dict Str ℕ → List Str
keys [] = []
keys ((k, s) ∷ m) = k ∷ Sets.remove k (keys m)

keys-IsUnique : (m : Dict Str ℕ) → Sets.IsUnique (keys m)
unfolding keys
keys-IsUnique [] = tt
keys-IsUnique ((k, s) ∷ m) = (
  ground (arith, Sets.has-remove k k (keys m), eq_iff k k),
  Sets.remove-IsUnique k (keys m) (keys-IsUnique m),
)

has-keys : (x : Str) (m : Dict Str ℕ) → Sets.has x (keys m) ≡ is_some (Dict.get x m)
unfolding keys Sets.has Dict.get
has-keys x [] = refl
has-keys x ((k, s) ∷ m) = ground (arith, has-keys x m, Sets.has-remove k x (keys m), eq_iff k x)

take : ℕ → List Str → List Str
take zero xs = []
take (suc n) [] = []
take (suc n) (x ∷ xs) = x ∷ take n xs

has-take : (x : Str) (n : ℕ) (xs : List Str) → Sets.has x (take n xs) ≡ true → Sets.has x xs ≡ true
unfolding take Sets.has
has-take x zero xs h = absurd (ground (arith, h))
has-take x (suc n) [] h = h
has-take x (suc n) (y ∷ xs) h = ground (arith, h, has-take x n xs)

take-IsUnique : (n : ℕ) (xs : List Str) → Sets.IsUnique xs → Sets.IsUnique (take n xs)
unfolding take
take-IsUnique zero xs u = tt
take-IsUnique (suc n) [] u = tt
take-IsUnique (suc n) (x ∷ xs) u = (ground (arith, u.0, has-take x n xs), take-IsUnique n xs u.1)

length-take : (n : ℕ) (xs : List Str) → length (take n xs) ≡ min n (length xs)
unfolding take
length-take zero xs = omega arith
length-take (suc n) [] = omega arith
length-take (suc n) (x ∷ xs) = omega (arith, length-take n xs)

-- All scores are taken as one.
front : ℤ → List Str → List Str
unfolding take
front stop xs = take (up_to stop (length xs)) xs

length-front : (stop : ℤ) (xs : List Str) → length (front stop xs) ≡ up_to stop (length xs)
unfolding front
length-front (pos n) xs = omega (arith, length-take (min (n + 1) (length xs)) xs)
length-front (negsuc n) xs = omega (arith, length-take (length xs - n) xs)

-- The elements, each once.
unfoldable pub nub : List Str → List Str
nub [] = []
nub (x ∷ s) = x ∷ Sets.remove x (nub s)

nub-IsUnique : (s : List Str) → Sets.IsUnique (nub s)
unfolding nub
nub-IsUnique [] = tt
nub-IsUnique (x ∷ s) = (
  ground (arith, Sets.has-remove x x (nub s), eq_iff x x),
  Sets.remove-IsUnique x (nub s) (nub-IsUnique s),
)

has-nub : (y : Str) (s : List Str) → Sets.has y (nub s) ≡ Sets.has y s
unfolding nub Sets.has
has-nub y [] = refl
has-nub y (x ∷ s) = ground (arith, has-nub y s, Sets.has-remove x y (nub s), eq_iff x y)

unfoldable pub purge : ℤ → Dict Str ℕ → Dict Str ℕ
purge bound [] = []
purge bound ((k, s) ∷ m) =
    let rest = purge bound m in if le_ℤ s bound then Dict.delete k rest else (k, s) ∷ rest

get-purge :
    (x : Str) (bound : ℤ) (m : Dict Str ℕ) → Dict.get x (purge bound m) ≡ above bound (Dict.get x m)
unfolding purge Dict.get
get-purge x bound [] = refl
get-purge x bound ((k, s) ∷ m) =
    ground (arith, get-purge x bound m, Dict.Laws.get-delete k x (purge bound m), eq_iff k x)

unfoldable pub memory : Redis
unfolding keys nub purge front
memory = record {
  Store = Store;
  zscore = λ k x st. Dict.get x (st.zsets k);
  zmembers = λ k st. keys (st.zsets k);
  zrevrange = λ k stop st. front stop (keys (st.zsets k));
  zcard = λ k st. length (keys (st.zsets k));
  zadd = λ k s x st. record st { zsets = update st.zsets k (Dict.set x s (st.zsets k)) };
  zrem = λ k x st. record st { zsets = update st.zsets k (Dict.delete x (st.zsets k)) };
  zremrangebyscore =
      λ k bound st. record st { zsets = update st.zsets k (purge bound (st.zsets k)) };
  smembers = λ k st. nub (st.sets k);
  scard = λ k st. length (nub (st.sets k));
  sismember = λ k x st. Sets.has x (nub (st.sets k));
  sadd = λ k x st. record st { sets = update st.sets k (Sets.add x (st.sets k)) };
  srem = λ k x st. record st { sets = update st.sets k (Sets.remove x (st.sets k)) };
  del = λ k st. record {
    zsets = update st.zsets k [];
    sets = update st.sets k [];
    due = update st.due k none;
  };
  deadline = λ k st. st.due k;
  pexpire = λ k now ttl st. record st { due = update st.due k (some (now + ttl)) };
  elapse = λ now st. record {
    zsets = λ k. if is_due now (st.due k) then [] else st.zsets k;
    sets = λ k. if is_due now (st.due k) then [] else st.sets k;
    due = λ k. if is_due now (st.due k) then none else st.due k;
  };
}

unfoldable pub empty : memory.Store
unfolding memory
empty = record { zsets = λ k. []; sets = λ k. []; due = λ k. none }

pub memory-IsRedis : IsRedis memory
unfolding memory front Dict.get Sets.has
memory-IsRedis = record {
  zmembers_unique = λ k st. keys-IsUnique (st.zsets k);
  zmembers_score = λ k x st. has-keys x (st.zsets k);
  zcard_lem = λ k st. refl;
  zrevrange_unique = λ k stop st.
      take-IsUnique (up_to stop (length (keys (st.zsets k)))) (keys (st.zsets k))
        (keys-IsUnique (st.zsets k));
  zrevrange_members =
      λ k x stop st. has-take x (up_to stop (length (keys (st.zsets k)))) (keys (st.zsets k));
  length-zrevrange = λ k stop st. length-front stop (keys (st.zsets k));
  zscore-zadd = λ k j x y s st. ground (
    arith,
    eq_iff k j,
    Dict.Laws.get-set x y s (st.zsets k),
    ap (λ (i : Str). Dict.get y (st.zsets i)) {x = k} {y = j},
  );
  zscore-zrem = λ k j x y st. ground (
    arith,
    eq_iff k j,
    Dict.Laws.get-delete x y (st.zsets k),
    ap (λ (i : Str). Dict.get y (st.zsets i)) {x = k} {y = j},
  );
  zscore-zremrangebyscore = λ k j y bound st. ground (
    arith,
    eq_iff k j,
    get-purge y bound (st.zsets k),
    ap (λ (i : Str). Dict.get y (st.zsets i)) {x = k} {y = j},
  );
  zscore-pexpire = λ k j y now ttl st. refl;
  zscore-elapse = λ j y now st. ground arith;
  zscore-del = λ k j y st. ground arith;
  deadline-zadd = λ k j x s st. refl;
  deadline-zremrangebyscore = λ k j y bound st there. refl;
  deadline-pexpire = λ k j y now ttl st there. ground arith;
  deadline-elapse = λ j now st. ground arith;
  smembers_unique = λ k st. nub-IsUnique (st.sets k);
  scard_lem = λ k st. refl;
  sismember_lem = λ k x st. refl;
  smembers-sadd = λ k j x y st. ground (
    arith,
    eq_iff k j,
    has-nub y (st.sets j),
    has-nub y (Sets.add x (st.sets k)),
    Sets.has-add x y (st.sets k),
    ap (λ (i : Str). Sets.has y (st.sets i)) {x = k} {y = j},
  );
  smembers-srem = λ k j x y st. ground (
    arith,
    eq_iff k j,
    has-nub y (st.sets j),
    has-nub y (Sets.remove x (st.sets k)),
    Sets.has-remove x y (st.sets k),
    ap (λ (i : Str). Sets.has y (st.sets i)) {x = k} {y = j},
  );
  smembers-del = λ k j y st. ground (arith, has-nub y (st.sets j));
}

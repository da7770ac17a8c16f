-- ===== src/Config/Valid.antt =====
-- Which configurations pass.
use event_stream_core.Prelude.{
  zero, suc, ◌≤◌, ◌≡◌, ◌≢◌, ◌⊎◌, inl, inr, refl, ◌∙◌, Bool, true, false, not, ◌&&◌, ◌||◌, [], ◌∷◌,
  Bytes, eqb, eqb→eq, eqb_refl, ok, ◌>>◌, throw_if, arith, Bool-cases, ltb→le, le→ltb,
}
use event_stream_core.Config.{
  ℤ, pos, negsuc, Load, ConfigError, AppConfiguration, not_positive, is_negative, is_above,
  bad_port, is_empty, sqlite, filesystem, validate,
}

abbrev pub IsPort : ℤ → Type 0
IsPort (pos n) = (1 ≤ n) × (n ≤ 65535)
IsPort (negsuc n) = ⊥

abbrev pub IsPositive : ℤ → Type 0
IsPositive (pos n) = 1 ≤ n
IsPositive (negsuc n) = ⊥

abbrev pub IsNatural : ℤ → Type 0
IsNatural (pos n) = Unit
IsNatural (negsuc n) = ⊥

abbrev pub IsAtMost : ℤ → ℤ → Type 0
IsAtMost (pos m) (pos n) = m ≤ n
IsAtMost (pos m) (negsuc n) = ⊥
IsAtMost (negsuc m) (pos n) = Unit
IsAtMost (negsuc m) (negsuc n) = n ≤ m

pub record IsValid (c : AppConfiguration) : Type 0 where
  pub tcp_port : IsPort c.ingestion.tcp_config.port
  pub udp_port : IsPort c.ingestion.udp_config.port
  pub file_path : c.ingestion.file_config.enable ≡ true → c.ingestion.file_config.path ≢ []
  pub shards : IsPositive c.router.shards
  pub buffer_size : IsPositive c.router.buffer_size
  pub threads : IsPositive c.rule_engine.threads
  pub cache_size : IsNatural c.rule_engine.cache_size
  pub backend : (c.storage.backend ≡ sqlite) ⊎ (c.storage.backend ≡ filesystem)
  pub script_path : c.python.enable ≡ true → c.python.script_path ≢ []
  pub min_threads : IsPositive c.thread_pool.min_threads
  pub max_threads : IsPositive c.thread_pool.max_threads
  pub ordered : IsAtMost c.thread_pool.min_threads c.thread_pool.max_threads

bad_port-IsPort : (p : ℤ) → bad_port p ≡ false → IsPort p
bad_port-IsPort (pos zero) h = cc
bad_port-IsPort (pos (suc n)) h = (omega arith, ltb→le 65535 (suc n) h)
bad_port-IsPort (negsuc n) h = cc

not_positive-IsPositive : (n : ℤ) → not_positive n ≡ false → IsPositive n
not_positive-IsPositive (pos zero) h = cc
not_positive-IsPositive (pos (suc n)) h = omega arith
not_positive-IsPositive (negsuc n) h = cc

is_negative-IsNatural : (n : ℤ) → is_negative n ≡ false → IsNatural n
is_negative-IsNatural (pos n) h = tt
is_negative-IsNatural (negsuc n) h = cc

is_above-IsAtMost : (m n : ℤ) → is_above m n ≡ false → IsAtMost m n
is_above-IsAtMost (pos m) (pos n) h = ltb→le n m h
is_above-IsAtMost (pos m) (negsuc n) h = cc
is_above-IsAtMost (negsuc m) (pos n) h = tt
is_above-IsAtMost (negsuc m) (negsuc n) h = ltb→le m n h

when_enabled : (b : Bool) (path : Bytes) → (b && is_empty path) ≡ false → b ≡ true → path ≢ []
when_enabled true [] h e = cc
when_enabled true (c ∷ cs) h e = λ q. cc
when_enabled false path h e = cc

or_false : (a b : Bool) → (a || b) ≡ false → (a ≡ false) × (b ≡ false)
or_false true b h = cc
or_false false b h = (refl, h)

known_backend :
    (s : Bytes)
    → (not (eqb s sqlite) && not (eqb s filesystem)) ≡ false
    → (s ≡ sqlite) ⊎ (s ≡ filesystem)
known_backend s h = elim (Bool-cases (eqb s sqlite)) [
  | inl e ↦ inl (eqb→eq s sqlite e)
  | inr e ↦ elim (Bool-cases (eqb s filesystem)) [
    | inl f ↦ inr (eqb→eq s filesystem f)
    | inr f ↦ absurd (neither (eqb s sqlite) (eqb s filesystem) h e f)
  ]
]
  where
    neither : (a b : Bool) → (not a && not b) ≡ false → a ≡ false → b ≡ false → ⊥
    neither true b h e f = cc
    neither false true h e f = cc
    neither false false h e f = cc

-- A test that did not throw.
passed :
    (b : Bool) (e : ConfigError) (m : Load AppConfiguration) {c : AppConfiguration}
    → (throw_if b e >> m) ≡ ok c
    → (b ≡ false) × (m ≡ ok c)
passed true e m h = cc
passed false e m h = (refl, h)

pub validate-inv :
    (c : AppConfiguration) {c' : AppConfiguration} → validate c ≡ ok c' → (c ≡ c') × IsValid c
unfolding validate
validate-inv c h =
    let (tcp, h₁) = passed _ _ _ h in
    let (udp, h₂) = passed _ _ _ h₁ in
    let (file, h₃) = passed _ _ _ h₂ in
    let (router, h₄) = passed _ _ _ h₃ in
    let (rules, h₅) = passed _ _ _ h₄ in
    let (backend, h₆) = passed _ _ _ h₅ in
    let (python, h₇) = passed _ _ _ h₆ in
    let (pool, done) = passed _ _ _ h₇ in
    let (shards, buffer) = or_false _ _ router in
    let (threads, cache) = or_false _ _ rules in
    let (least_most, above) = or_false _ _ pool in
    let (least, most) = or_false _ _ least_most in
    (
      ok_inv c _ done,
      record {
        tcp_port = bad_port-IsPort _ tcp;
        udp_port = bad_port-IsPort _ udp;
        file_path = when_enabled _ _ file;
        shards = not_positive-IsPositive _ shards;
        buffer_size = not_positive-IsPositive _ buffer;
        threads = not_positive-IsPositive _ threads;
        cache_size = is_negative-IsNatural _ cache;
        backend = known_backend _ backend;
        script_path = when_enabled _ _ python;
        min_threads = not_positive-IsPositive _ least;
        max_threads = not_positive-IsPositive _ most;
        ordered = is_above-IsAtMost _ _ above;
      },
    )
  where
    ok_inv : (a b : AppConfiguration) → ◌≡◌ {A = Load AppConfiguration} (ok a) (ok b) → a ≡ b
    ok_inv a b e = cc

-- The converses.
IsPort-bad_port : (p : ℤ) → IsPort p → bad_port p ≡ false
IsPort-bad_port (pos zero) (l, h) = absurd (omega arith)
IsPort-bad_port (pos (suc n)) (l, h) = le→ltb 65535 (suc n) h
IsPort-bad_port (negsuc n) h = elim h [ ]

IsPositive-not_positive : (n : ℤ) → IsPositive n → not_positive n ≡ false
IsPositive-not_positive (pos zero) h = absurd (omega arith)
IsPositive-not_positive (pos (suc n)) h = refl
IsPositive-not_positive (negsuc n) h = elim h [ ]

IsNatural-is_negative : (n : ℤ) → IsNatural n → is_negative n ≡ false
IsNatural-is_negative (pos n) h = refl
IsNatural-is_negative (negsuc n) h = elim h [ ]

IsAtMost-is_above : (m n : ℤ) → IsAtMost m n → is_above m n ≡ false
IsAtMost-is_above (pos m) (pos n) h = le→ltb n m h
IsAtMost-is_above (pos m) (negsuc n) h = elim h [ ]
IsAtMost-is_above (negsuc m) (pos n) h = refl
IsAtMost-is_above (negsuc m) (negsuc n) h = le→ltb m n h

enabled_when : (b : Bool) (path : Bytes) → (b ≡ true → path ≢ []) → (b && is_empty path) ≡ false
enabled_when true [] h = absurd (h refl refl)
enabled_when true (c ∷ cs) h = refl
enabled_when false path h = refl

backend_known :
    (s : Bytes)
    → (s ≡ sqlite) ⊎ (s ≡ filesystem)
    → (not (eqb s sqlite) && not (eqb s filesystem)) ≡ false
backend_known s (inl e) = rw (e, eqb_refl sqlite) refl
backend_known s (inr e) = rw (e, eqb_refl filesystem) (and_false (not (eqb filesystem sqlite)))
  where
    and_false : (b : Bool) → (b && false) ≡ false
    and_false true = refl
    and_false false = refl

pass :
    (b : Bool) (e : ConfigError) (m : Load AppConfiguration) → b ≡ false → (throw_if b e >> m) ≡ m
pass true e m h = cc
pass false e m h = refl

either : (a b : Bool) → a ≡ false → b ≡ false → (a || b) ≡ false
either true b h k = cc
either false b h k = k

pub validate-IsValid : (c : AppConfiguration) → IsValid c → validate c ≡ ok c
unfolding validate
validate-IsValid c v =
    pass _ _ _ (IsPort-bad_port _ v.tcp_port)
    ∙ pass _ _ _ (IsPort-bad_port _ v.udp_port)
    ∙ pass _ _ _ (enabled_when _ _ v.file_path)
    ∙ pass _ _ _
        (either _ _ (IsPositive-not_positive _ v.shards) (IsPositive-not_positive _ v.buffer_size))
    ∙ pass _ _ _
        (either _ _ (IsPositive-not_positive _ v.threads) (IsNatural-is_negative _ v.cache_size))
    ∙ pass _ _ _ (backend_known _ v.backend)
    ∙ pass _ _ _ (enabled_when _ _ v.script_path)
    ∙ pass _ _ _ (
        either _ _
          (either _ _ (IsPositive-not_positive _ v.min_threads)
            (IsPositive-not_positive _ v.max_threads))
          (IsAtMost-is_above _ _ v.ordered))

-- ===== src/Inference/Registry/Entry/Models.antt =====
-- What is read of an entry is a whole model.
use my_tiny_network_library.Base.{
  ℤ, ◌≡◌, ◌≢◌, refl, ap, ◌∙◌, subst, Bool, true, false, ◌||◌, [], ◌∷◌, ◌++◌, Option, none, some,
  if◌then◌else◌, Bytes, codes, is_empty, is_empty_iff,
}
use my_tiny_network_library.Inference.Types.{BackendType, auto, tensor_flow, tensor_rt, ModelConfig}
use my_tiny_network_library.Inference.Registry.Entry.{
  pure, absolute_path, Thrown, value, threw, ◌>>=◌, Reader, definite, in_directory, complete,
  read_config, read_entry,
}

-- a model that can be asked for: it has a name, a version and a path, and a definite backend
pub record IsModel (config : ModelConfig) : Type 0 where
  pub named : config.name ≢ []
  pub versioned : config.version ≢ []
  pub placed : config.path ≢ []
  pub definite_backend : config.backend ≢ auto

definite-definite : (o : Option BackendType) (b : BackendType) → definite o ≡ value b → b ≢ auto
definite-definite (some tensor_flow) b h = λ e. cc (h, e)
definite-definite (some tensor_rt) b h = λ e. cc (h, e)
definite-definite (some auto) b h = absurd (cc h)
definite-definite none b h = absurd (cc h)

-- what a chain came to, it came to through the value of its first part
bind-value :
    {A B : Type 0} (t : Thrown A) (k : A → Thrown B) (b : B)
    → (t >>= k) ≡ value b
    → (a : A) × (t ≡ value a) × (k a ≡ value b)
unfolding ◌>>=◌
bind-value (value a) k b h = (a, refl, h)
bind-value (threw what) k b h = absurd (cc h)

pure-pair : {A B : Type 0} (p q : A × B) → pure p ≡ value q → p.0 ≡ q.0
pure-pair p q h = let same : p ≡ q = cc h in ap (λ p. p.0) same

in_directory-nonempty : (base path : Bytes) → path ≢ [] → in_directory base path ≢ []
in_directory-nonempty base [] h = absurd (h refl)
in_directory-nonempty base (c ∷ cs) h = go (absolute_path (c ∷ cs)) base
  where
    go : (b : Bool) (base : Bytes) → (if b then c ∷ cs else base ++ (codes "/" ++ (c ∷ cs))) ≢ []
    go true base = λ e. cc e
    go false [] = λ e. cc e
    go false (d ∷ ds) = λ e. cc e

complete-IsModel :
    (base : Bytes) (config after : ModelConfig)
    → config.backend ≢ auto
    → complete base config ≡ value after
    → IsModel after
complete-IsModel base config after d h = go _ _ _ refl refl refl h
  where
    go :
        (n v p : Bool)
        → is_empty config.name ≡ n
        → is_empty config.version ≡ v
        → is_empty config.path ≡ p
        → (if n || v || p
            then threw (codes "name, version, and path must not be empty")
            else value (record config { path = in_directory base config.path }))
          ≡ value after
        → IsModel after
    go true v p en ev ep h = absurd (cc h)
    go false true p en ev ep h = absurd (cc h)
    go false false true en ev ep h = absurd (cc h)
    go false false false en ev ep h =
        let same : record config { path = in_directory base config.path } ≡ after = cc h in
        subst IsModel same (record {
          named = λ e. cc (en, (is_empty_iff config.name).1 e);
          versioned = λ e. cc (ev, (is_empty_iff config.version).1 e);
          placed =
              in_directory-nonempty base config.path (λ e. cc (ep, (is_empty_iff config.path).1 e));
          definite_backend = d;
        })

module _ {J : Type 0} (json : Reader J) where
  read_config-IsModel :
      (base : Bytes) (item : J) (config : ModelConfig) (priority : ℤ)
      → read_config json base item ≡ value (config, priority)
      → IsModel config
  unfolding read_config
  read_config-IsModel base item config priority h =
      let name = bind-value _ _ _ h in
      let version = bind-value _ _ _ name.2 in
      let path = bind-value _ _ _ version.2 in
      let backend_name = bind-value _ _ _ path.2 in
      let backend = bind-value _ _ _ backend_name.2 in
      let device_id = bind-value _ _ _ backend.2 in
      let max_concurrency = bind-value _ _ _ device_id.2 in
      let complete = bind-value _ _ _ max_concurrency.2 in
      let rest = bind-value _ _ _ complete.2 in
      subst IsModel (pure-pair (complete.0, rest.0) (config, priority) rest.2)
        (complete-IsModel base _ complete.0 (definite-definite _ backend.0 backend.1) complete.1)

  pub read_entry-IsModel :
      (base : Bytes) (item : J) (config : ModelConfig) (priority : ℤ)
      → read_entry json base item ≡ value (some (config, priority))
      → IsModel config
  unfolding read_entry
  read_entry-IsModel base item config priority h = let skip = bind-value _ _ _ h in go skip.0 skip.2
    where
      go :
          (skip : Bool)
          → (if skip then value none else (read_config json base item >>= λ c. value (some c)))
            ≡ value (some (config, priority))
          → IsModel config
      go true h = absurd (cc h)
      go false h =
          let c = bind-value _ _ _ h in
          let same : c.0 ≡ (config, priority) = cc c.2 in
          read_config-IsModel base item config priority (c.1 ∙ ap value same)

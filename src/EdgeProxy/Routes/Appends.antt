-- ===== src/EdgeProxy/Routes/Appends.antt =====
-- Methods that only append rules: what each adds to each chain, also when it fails half-way.
use kiac.Base.{
  if◌then◌else◌, concat_map, Result, ok, err, ◌≡◌, refl, sym, ap, ◌∙◌, inl, inr, Bool, true, false,
  ◌&&◌, Option, none, some, List, [], ◌∷◌, ◌++◌, append-nil, append_assoc, arith,
}
use kiac.Base.Exec.{pure, modify, ◌>>◌, for_each, >>=-eq-ok, >>=-eq-err}
use kiac.EdgeProxy.Iptables.{
  Family, Chain, Rule, same_family, same_chain, chain_of, effect, append, Iptables,
}
use kiac.EdgeProxy.Node.{Node, ProxyError, ipt}
use kiac.EdgeProxy.Hooks.{Method}
use kiac.EdgeProxy.Hooks.Views.{view, ipt_done, ipt_refused}

-- The rules of a chain, and some more.
unfoldable pub extend : List Rule → Option (List Rule) → Option (List Rule)
extend more none = none
extend more (some rs) = some (rs ++ more)

pub extend-nil : (o : Option (List Rule)) → extend [] o ≡ o
unfolding extend
extend-nil none = refl
extend-nil (some rs) = ap some (append-nil rs)

extend-extend :
    (xs ys : List Rule) (o : Option (List Rule)) → extend ys (extend xs o) ≡ extend (xs ++ ys) o
unfolding extend
extend-extend xs ys none = refl
extend-extend xs ys (some rs) = ap some (append_assoc rs xs ys)

-- `xs` is the first part of `ys`.
pub record Prefix (xs ys : List Rule) : Type 0 where
  pub rest : List Rule
  pub joined : xs ++ rest ≡ ys

pub Prefix-nil : (ys : List Rule) → Prefix [] ys
Prefix-nil ys = record { rest = ys; joined = refl }

Prefix-append : (xs ys zs : List Rule) → Prefix xs ys → Prefix xs (ys ++ zs)
Prefix-append xs ys zs p = record {
  rest = p.rest ++ zs;
  joined = sym (append_assoc xs p.rest zs) ∙ ap (λ ws. ws ++ zs) p.joined;
}

Prefix-behind : (xs ys zs : List Rule) → Prefix ys zs → Prefix (xs ++ ys) (xs ++ zs)
Prefix-behind xs ys zs p = record {
  rest = p.rest;
  joined = append_assoc xs ys p.rest ∙ ap (λ ws. xs ++ ws) p.joined;
}

module _ (t : Iptables) where
  open t use {Kernel}

  -- What a method adds to each chain.
  abbrev pub Added : Type 0
  Added = Family → Chain → List Rule

  pub record Appends (m : Method t (Unit {0})) (added : Added) : Type 0 where
    pub whole :
        (n k : Node Kernel) (g : Family) (ch : Chain)
        → m n ≡ (ok tt, k)
        → view t k g ch ≡ extend (added g ch) (view t n g ch)
    -- A method that fails has added a first part.
    pub part :
        (n k : Node Kernel) (x : ProxyError) (g : Family) (ch : Chain)
        → m n ≡ (err x, k)
        → (first : List Rule) × Prefix first (added g ch)
          × (view t k g ch ≡ extend first (view t n g ch))

  abbrev pub nothing : Added
  nothing g ch = []

  pub Appends-pure : Appends (pure tt) nothing
  Appends-pure = record {
    whole = λ n k g ch e.
        ap (λ (p : Result ProxyError (Unit {0}) × Node Kernel). view t p.1 g ch) (sym e)
        ∙ sym (extend-nil (view t n g ch));
    part = λ n k x g ch e. absurd (cc);
  }

  pub Appends-modify :
      (f : Node Kernel → Node Kernel)
      → ((n : Node Kernel) → (f n).kernel ≡ n.kernel)
      → Appends (modify f) nothing
  Appends-modify f same = record {
    whole = λ n k g ch e.
        ap (λ (p : Result ProxyError (Unit {0}) × Node Kernel). view t p.1 g ch) (sym e)
        ∙ (ap (λ q. t.rules q g ch) (same n) ∙ sym (extend-nil (view t n g ch)));
    part = λ n k x g ch e. absurd (cc);
  }

  pub Appends-ipt :
      (f : Family) (ch : Chain) (r : Rule)
      → Appends
          (ipt t f (append ch r))
          (λ g c. if same_family f g && same_chain ch c then r ∷ [] else [])
  unfolding effect chain_of extend
  Appends-ipt f ch r = record {
    whole =
        λ n k g c e. ground (arith, ipt_done t f (append ch r) n g c e, extend-nil (view t n g c));
    part = λ n k x g c e.
        ([], Prefix-nil _, ipt_refused t f (append ch r) n g c e ∙ sym (extend-nil (view t n g c)));
  }

  pub Appends-then :
      (m m' : Method t (Unit {0})) (a a' : Added)
      → Appends m a
      → Appends m' a'
      → Appends (m >> m') (λ g ch. a g ch ++ a' g ch)
  Appends-then m m' a a' p q = record {
    whole = λ n k g ch e.
        let (_, l, e1, e2) = >>=-eq-ok m (λ _. m') n e in
        cc (
          p.whole n l g ch e1,
          q.whole l k g ch e2,
          extend-extend (a g ch) (a' g ch) (view t n g ch),
        );
    part = λ n k x g ch e. elim (>>=-eq-err m (λ _. m') n e) [
      | inl e1 ↦
          let (first, pre, v) = p.part n k x g ch e1 in
          (first, Prefix-append first (a g ch) (a' g ch) pre, v)
      | inr (_, l, e1, e2) ↦
          let (first, pre, v) = q.part l k x g ch e2 in
          (
            a g ch ++ first,
            Prefix-behind (a g ch) first (a' g ch) pre,
            cc (p.whole n l g ch e1, v, extend-extend (a g ch) first (view t n g ch)),
          )
    ];
  }

  pub Appends-if :
      (b : Bool) (m m' : Method t (Unit {0})) (a a' : Added)
      → Appends m a
      → Appends m' a'
      → Appends (if b then m else m') (λ g ch. if b then a g ch else a' g ch)
  Appends-if true m m' a a' p q = p
  Appends-if false m m' a a' p q = q

  pub Appends-for_each :
      {A : Type 0} (xs : List A) (body : A → Method t (Unit {0})) (a : A → Added)
      → ((x : A) → Appends (body x) (a x))
      → Appends (for_each xs body) (λ g ch. concat_map (λ x. a x g ch) xs)
  unfolding for_each
  Appends-for_each [] body a p = Appends-pure
  Appends-for_each (x ∷ xs) body a p =
      Appends-then (body x) (for_each xs body) (a x) (λ g ch. concat_map (λ y. a y g ch) xs) (p x)
        (Appends-for_each xs body a p)

  -- Succeed or fail, a first part of what is planned has been added.
  pub Appends-any :
      (m : Method t (Unit {0})) (a : Added)
      → Appends m a
      → (n : Node Kernel) (g : Family) (ch : Chain)
      → (first : List Rule) × Prefix first (a g ch)
        × (view t (m n).1 g ch ≡ extend first (view t n g ch))
  Appends-any m a p n g ch = go (m n) refl
    where
      go :
          (r : Result ProxyError (Unit {0}) × Node Kernel)
          → m n ≡ r
          → (first : List Rule) × Prefix first (a g ch)
            × (view t r.1 g ch ≡ extend first (view t n g ch))
      go (ok done, k) e =
          (a g ch, record { rest = []; joined = append-nil (a g ch) }, p.whole n k g ch e)
      go (err x, k) e = p.part n k x g ch e

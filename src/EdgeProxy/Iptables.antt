-- ===== src/EdgeProxy/Iptables.antt =====
-- The nat tables of the node, and the iptables binaries that change them: another program, taken as
-- a parameter with its documented behaviour (`ipt` of cmd/kiac-edge-proxy/main.go calls it).
use native.Mathlib.Decide.{ℕ_discrete}
use kiac.Base.{
  ◌==◌, if◌then◌else◌, Eq, Text, elem, erase, ℕ, ◌≡◌, refl, ◌↔◌, Bool, true, false, ◌&&◌, Option,
  none, some, List, [], ◌∷◌, ◌++◌, arith, decided, decided_iff, nat_eq, bool_eq, text_eq, pair_eq,
  int_eq,
}

-- The binary: `a.iptables` or `a.ip6tables`.
pub data Family : Type 0 where
  ipv4 ipv6 : Family

pub data Chain : Type 0 where
  prerouting output edge edge_output : Chain

-- The rules that the proxy writes, each with the values that vary; `foreign` is any other rule.
pub data Rule : Type 0 where
  -- `-j CHAIN`
  jump : Chain → Rule
  -- `-p tcp --dport PORT -j RETURN`
  return_port : Text → Rule
  -- `-p tcp -m addrtype --dst-type LOCAL --dport RANGE -j REDIRECT --to-ports PORT`
  redirect_local : Text → Text → Rule
  -- `-p tcp -d IP --dport PORT -j REDIRECT --to-ports PORT`
  redirect_to : Text → Text → Text → Rule
  foreign : ℕ → Rule

-- `-N`, `-X`, `-F`, `-A`, `-I CHAIN 1`, `-D` and `-C`.
pub data Command : Type 0 where
  new_chain delete_chain flush : Chain → Command
  append insert delete check : Chain → Rule → Command

unfoldable pub chain_of : Command → Chain
chain_of (new_chain c) = c
chain_of (delete_chain c) = c
chain_of (flush c) = c
chain_of (append c r) = c
chain_of (insert c r) = c
chain_of (delete c r) = c
chain_of (check c r) = c

Rule-discrete : Discrete Rule
Rule-discrete = hlevel ℕ_discrete

unfoldable pub rule_beq : Rule → Rule → Bool
unfolding Rule-discrete decided
rule_beq = decided Rule-discrete

pub rule_beq_iff : (r s : Rule) → (rule_beq r s ≡ true) ↔ (r ≡ s)
unfolding rule_beq
rule_beq_iff = decided_iff Rule-discrete

instance abbrev pub rule_eq : Eq Rule
rule_eq = record { beq = rule_beq; beq_iff = rule_beq_iff }

abbrev pub same_family : Family → Family → Bool
same_family ipv4 ipv4 = true
same_family ipv4 ipv6 = false
same_family ipv6 ipv4 = false
same_family ipv6 ipv6 = true

abbrev chain_number : Chain → ℕ
chain_number prerouting = 0
chain_number output = 1
chain_number edge = 2
chain_number edge_output = 3

abbrev pub same_chain : Chain → Chain → Bool
same_chain c d = chain_number c == chain_number d

pub same_family-eq : (f g : Family) → same_family f g ≡ true → f ≡ g
same_family-eq f g h = ground arith

pub same_chain-eq : (c d : Chain) → same_chain c d ≡ true → c ≡ d
same_chain-eq c d h = ground arith

pub same_family_refl : (f : Family) → same_family f f ≡ true
same_family_refl ipv4 = refl
same_family_refl ipv6 = refl

unfoldable pub on_rules : (List Rule → List Rule) → Option (List Rule) → Option (List Rule)
on_rules f none = none
on_rules f (some rs) = some (f rs)

-- What a command does to the chain that it names; a chain that is not there is `none`.
unfoldable pub effect : Command → Option (List Rule) → Option (List Rule)
unfolding on_rules
effect (new_chain c) o = some []
effect (delete_chain c) o = none
effect (flush c) o = on_rules (λ rs. []) o
effect (append c r) o = on_rules (λ rs. rs ++ r ∷ []) o
effect (insert c r) o = on_rules (λ rs. r ∷ rs) o
effect (delete c r) o = on_rules (erase r) o
effect (check c r) o = o

abbrev pub holds : Rule → Option (List Rule) → Bool
holds r none = false
holds r (some rs) = elem r rs

-- `run` returns whether the exit status is 0. A command that fails changes nothing, one that
-- succeeds changes the chain that it names alone, and `-D` and `-C` succeed exactly if the chain
-- has the rule.
pub record Iptables : Type 1 where
  pub Kernel : Type 0
  pub run : Family → Command → Kernel → Bool × Kernel
  pub rules : Kernel → Family → Chain → Option (List Rule)
  pub rules-run :
      (f : Family) (c : Command) (k : Kernel) (g : Family) (ch : Chain)
      → rules (run f c k).1 g ch ≡ (
          if (run f c k).0 && (same_family f g && same_chain (chain_of c) ch)
          then effect c (rules k g ch)
          else rules k g ch)
  pub run-delete :
      (f : Family) (ch : Chain) (r : Rule) (k : Kernel)
      → (run f (delete ch r) k).0 ≡ holds r (rules k f ch)
  pub run-check :
      (f : Family) (ch : Chain) (r : Rule) (k : Kernel)
      → (run f (check ch r) k).0 ≡ holds r (rules k f ch)

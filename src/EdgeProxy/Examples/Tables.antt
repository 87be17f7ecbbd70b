-- ===== src/EdgeProxy/Examples/Tables.antt =====
-- The nat tables as a function from a chain to its rules, with the commands that fail as iptables
-- documents it: this fills the interface of `Iptables`.
use kiac.Base.{
  if◌then◌else◌, is_some, ◌≡◌, refl, ap, ◌∙◌, Bool, true, false, not, ◌&&◌, Option, none, some,
  List, [], ◌∷◌, arith,
}
use kiac.EdgeProxy.Iptables.{
  Chain, Command, Family, Iptables, Rule, chain_of, effect, holds, same_chain, same_chain-eq,
  same_family, same_family-eq, new_chain, delete_chain, flush, append, insert, delete, check,
}

abbrev pub NatTables : Type 0
NatTables = Family → Chain → Option (List Rule)

succeeds : Command → Option (List Rule) → Bool
succeeds (new_chain c) o = not (is_some o)
succeeds (delete_chain c) none = false
succeeds (delete_chain c) (some []) = true
succeeds (delete_chain c) (some (r ∷ rs)) = false
succeeds (flush c) o = is_some o
succeeds (append c r) o = is_some o
succeeds (insert c r) o = is_some o
succeeds (delete c r) o = holds r o
succeeds (check c r) o = holds r o

set_chain : Family → Chain → Option (List Rule) → NatTables → NatTables
set_chain f c o k g ch = if same_family f g && same_chain c ch then o else k g ch

unfoldable pub run_tables : Family → Command → NatTables → Bool × NatTables
unfolding succeeds set_chain chain_of effect
run_tables f c k =
    let o = k f (chain_of c) in
    (succeeds c o, if succeeds c o then set_chain f (chain_of c) (effect c o) k else k)

pub run_tables_rules :
    (f : Family) (c : Command) (k : NatTables) (g : Family) (ch : Chain)
    → (run_tables f c k).1 g ch ≡ (
        if (run_tables f c k).0 && (same_family f g && same_chain (chain_of c) ch)
        then effect c (k g ch)
        else k g ch)
unfolding run_tables set_chain
run_tables_rules f c k g ch = go (succeeds c (k f (chain_of c)))
  where
    pick :
        (same : Bool)
        → (same_family f g && same_chain (chain_of c) ch) ≡ same
        → (if same then effect c (k f (chain_of c)) else k g ch)
          ≡ (if same then effect c (k g ch) else k g ch)
    pick true e =
        let same_f : f ≡ g = same_family-eq f g (ground arith) in
        let same_c : chain_of c ≡ ch = same_chain-eq (chain_of c) ch (ground arith) in
        ap (λ (h : Family). effect c (k h (chain_of c))) same_f
        ∙ ap (λ (d : Chain). effect c (k g d)) same_c
    pick false e = refl

    go :
        (done : Bool)
        → (if done then set_chain f (chain_of c) (effect c (k f (chain_of c))) k else k) g ch ≡ (
            if done && (same_family f g && same_chain (chain_of c) ch)
            then effect c (k g ch)
            else k g ch)
    go true = pick (same_family f g && same_chain (chain_of c) ch) refl
    go false = refl

pub run_delete :
    (f : Family) (ch : Chain) (r : Rule) (k : NatTables)
    → (run_tables f (delete ch r) k).0 ≡ holds r (k f ch)
unfolding run_tables chain_of
run_delete f ch r k = refl

pub run_check :
    (f : Family) (ch : Chain) (r : Rule) (k : NatTables)
    → (run_tables f (check ch r) k).0 ≡ holds r (k f ch)
unfolding run_tables chain_of
run_check f ch r k = refl

abbrev pub tables : Iptables
tables = record {
  Kernel = NatTables;
  run = run_tables;
  rules = λ k. k;
  rules-run = run_tables_rules;
  run-delete = run_delete;
  run-check = run_check;
}

-- ===== src/Tickers/Registry/Keyed.antt =====
-- The maps of the registry agree, and what is registered is found.
use atp.Common.{
  ℕ, ◌≡◌, refl, sym, ap, ◌∙◌, ◌≢◌, true, none, some, if◌then◌else◌, arith, inl, inr, Bool-cases,
  Option-cases,
}
use atp.Common.Int.{ℤ, negsuc}
use atp.Common.Eq.{int_eq, int_test_iff}
use atp.Common.Map.{find, assign, find-assign, find-assign_self, find-assign_ne}
use atp.Common.Text.{Str, str_eq, same, same_iff}
use atp.Tickers.Registry.{
  Contract, Tickers, symbol_from_contract, ticker_id_for, register_contract, registered,
  with_contract, get_subscription_key_from_id, get_ticker_id_from_subscription_key,
}

-- Every key has an id whose symbol is the key.
unfoldable pub Agree : Tickers → Type 0
Agree t = (key : Str) (id : ℤ) → find key t.ids ≡ some id → find id t.symbols ≡ some key

Agree-assign :
    (t : Tickers) (id : ℤ) (symbol key : Str) (i : ℤ)
    → Agree t
    → find id t.symbols ≡ none
    → find key (assign symbol id t.ids) ≡ some i
    → find i (assign id symbol t.symbols) ≡ some key
unfolding Agree
Agree-assign t id symbol key i v free h = elim (Bool-cases (same symbol key)) [
  | inl p ↦
      let same_id : some id ≡ some i = sym (find-assign symbol key id t.ids ∙ rw p refl) ∙ h in
      ground
        (arith, same_id, same_iff symbol key, find-assign id i symbol t.symbols, int_test_iff id i)
  | inr p ↦
      let there : find i t.symbols ≡ some key =
        v key i (sym (find-assign symbol key id t.ids ∙ rw p refl) ∙ h) in
      find-assign_ne id i symbol t.symbols (λ e. ground (arith, e, there, free)) ∙ there
]

module _ (print_double : ℕ → Str) (c : Contract) (t : Tickers) where
  pub register_contract-new :
      find (ticker_id_for c.con_id t) t.symbols ≡ none
      → register_contract print_double c t ≡ (
        ticker_id_for c.con_id t,
        with_contract (ticker_id_for c.con_id t) (symbol_from_contract print_double c) c t,
      )
  unfolding register_contract registered
  register_contract-new p = rw (register_contract, p) refl

  pub register_contract-taken :
      (old : Str)
      → find (ticker_id_for c.con_id t) t.symbols ≡ some old
      → register_contract print_double c t ≡ (
        if same old (symbol_from_contract print_double c)
            then ticker_id_for c.con_id t
            else negsuc 0,
        t,
      )
  unfolding register_contract registered
  register_contract-taken old p = rw (register_contract, p) refl

  -- Registering a contract keeps the maps in agreement: every key has an id whose symbol it is.
  register_contract-Agree : Agree t → Agree (register_contract print_double c t).1
  register_contract-Agree v = elim (Option-cases (find (ticker_id_for c.con_id t) t.symbols)) [
    | inl p ↦
        rw (register_contract-new p)
          (unfold Agree in unfold with_contract in λ key i h. Agree-assign t _ _ key i v p h)
    | inr (old, p) ↦ rw (register_contract-taken old p) v
  ]

  -- A contract whose id was free is registered under it, and then its key gives its id, and its id
  -- gives its key.
  register_contract-found :
      find (ticker_id_for c.con_id t) t.symbols ≡ none
      → (get_ticker_id_from_subscription_key
            (symbol_from_contract print_double c)
            (register_contract print_double c t).1
          ≡ some (true, (register_contract print_double c t).0))
        × (get_subscription_key_from_id
              (register_contract print_double c t).0
              (register_contract print_double c t).1
            ≡ (true, symbol_from_contract print_double c))
        × ((register_contract print_double c t).0 ≡ ticker_id_for c.con_id t)
  unfolding with_contract get_ticker_id_from_subscription_key get_subscription_key_from_id
  register_contract-found p =
      let id = ticker_id_for c.con_id t in
      let symbol = symbol_from_contract print_double c in
      rw (register_contract-new p) (
        rw (get_ticker_id_from_subscription_key, find-assign_self symbol id t.ids) refl,
        rw (get_subscription_key_from_id, find-assign_self id symbol t.symbols) refl,
        refl,
      )

  -- A contract whose id another symbol has is refused with -1 and changes nothing. This also befalls
  -- a contract that comes without an id, when the number made for it is one that is taken.
  register_contract-refused :
      (old : Str)
      → find (ticker_id_for c.con_id t) t.symbols ≡ some old
      → old ≢ symbol_from_contract print_double c
      → register_contract print_double c t ≡ (negsuc 0, t)
  register_contract-refused old p h =
      register_contract-taken old p
      ∙ ap (λ i. (i, t)) (ground (arith, same_iff old (symbol_from_contract print_double c)))

-- ===== src/Ranker/Order.antt =====
-- The comparison of the ranker is a strict order, total on entries with different keys.
use cpa_plugin_reset_priorit.Base.{
  Bool-cases, str_lt, str_lt_irrefl, str_lt_trans, str_lt_asym, str_lt_total, ◌≡◌, ◌≢◌, inl, inr,
  true, false, arith,
}
use cpa_plugin_reset_priorit.Ranker.{RankEntry, less}

pub less_irrefl : (a : RankEntry) → less a a ≡ false
unfolding less
less_irrefl a = ground (arith, str_lt_irrefl a.key)

pub less_asym : (a b : RankEntry) → less a b ≡ true → less b a ≡ false
unfolding less
less_asym a b h = ground (arith, str_lt_asym a.key b.key)

pub less_trans : (a b c : RankEntry) → less a b ≡ true → less b c ≡ true → less a c ≡ true
unfolding less
less_trans a b c h k = ground (arith, str_lt_trans a.key b.key c.key)

pub less_total : (a b : RankEntry) → a.key ≢ b.key → less a b ≡ false → less b a ≡ true
unfolding less
less_total a b n h = elim (Bool-cases (str_lt b.key a.key)) [
  | inl k ↦ ground arith
  | inr k ↦ elim (Bool-cases (str_lt a.key b.key)) [
    | inl j ↦ ground arith
    | inr j ↦ absurd (n (str_lt_total a.key b.key j k))
  ]
]

-- ===== src/Ent/Queries.antt =====
-- The `Where` of each query of internal/share/store.go, under SQL.
use shareserver.Base.{
  Bool, ◌&&◌, ◌||◌, not, Option, none, some, [], ◌∷◌, Text, codes, text_eq, text_lt, ◌≡◌, refl, ap,
  arith,
}
use shareserver.World.{ShareRow}
use shareserver.Share.{ActiveRule}
use shareserver.Share.Store.{is_nil, predicate, expired_predicate, listed_public, listed_by_key}
use shareserver.Ent.{text}
use shareserver.Ent.Predicate.{
  Comparing, IsBinary, Truth, unknown, truth, eq, gt, lte, compared, evaluate, evaluate_and,
  evaluate_or, selects,
}
use shareserver.Ent.ShareRows.{
  or_null, share_values, active_query, expired_query, public_query, key_query, expiry_query,
  unprotected_query, purged_query,
}

-- A test of a nullable text.
abbrev answer : (Text → Bool) → Option Text → Truth
answer p none = unknown
answer p (some t) = truth (p t)

module _ (test : Comparing) (h : IsBinary test) where
  compared-gt :
      (o : Option Text) (t : Text) → compared test gt (or_null o) (text t) ≡ answer (text_lt t) o
  compared-gt none t = refl
  compared-gt (some u) t = ap truth (h.gt_text u t)

  compared-lte :
      (o : Option Text) (t : Text)
      → compared test lte (or_null o) (text t) ≡ answer (λ u. not (text_lt t u)) o
  compared-lte none t = refl
  compared-lte (some u) t = ap truth (h.lte_text u t)

  compared-eq :
      (o : Option Text) (t : Text)
      → compared test eq (or_null o) (text t) ≡ answer (λ u. text_eq u t) o
  compared-eq none t = refl
  compared-eq (some u) t = ap truth (h.eq_text u t)

  module _ (r : ActiveRule) (row : ShareRow) where
    active_selects : selects test (share_values row) (active_query r ∷ []) ≡ predicate r row
    unfolding selects evaluate evaluate_and evaluate_or share_values predicate
    active_selects = ground (arith, compared-gt row.expires_at r.encoded_now)

    expired_selects :
        selects test (share_values row) (expired_query r ∷ []) ≡ expired_predicate r row
    unfolding selects evaluate evaluate_and evaluate_or share_values expired_predicate
    expired_selects = ground (arith, compared-lte row.expires_at r.encoded_now)

    public_selects : selects test (share_values row) (public_query r) ≡ listed_public r row
    unfolding selects evaluate evaluate_and evaluate_or share_values predicate listed_public
    public_selects = ground (
      arith,
      compared-gt row.expires_at r.encoded_now,
      h.eq_text row.visibility (codes "public"),
      h.eq_true row.encrypted,
    )

    key_selects :
        (key_hash : Text)
        → selects test (share_values row) (key_query r key_hash) ≡ listed_by_key r key_hash row
    unfolding selects evaluate evaluate_and evaluate_or share_values predicate listed_by_key
    key_selects k = ground (
      arith,
      compared-gt row.expires_at r.encoded_now,
      h.eq_text row.visibility (codes "private"),
      compared-eq row.private_key_hash k,
      h.eq_true row.encrypted,
    )

    expiry_selects :
        selects test (share_values row) expiry_query
        ≡ (is_nil row.purged_at && not (is_nil row.expires_at))
    unfolding selects evaluate share_values
    expiry_selects = ground arith

    unprotected_selects :
        selects test (share_values row) unprotected_query
        ≡ (not row.encrypted || is_nil row.download_password_hash)
    unfolding selects evaluate evaluate_or share_values
    unprotected_selects = ground (arith, h.eq_false row.encrypted)

    purged_selects : selects test (share_values row) purged_query ≡ not (is_nil row.purged_at)
    unfolding selects evaluate share_values
    purged_selects = ground arith

-- The queries of the store, as the database reads them.
abbrev pub WhereMatches : Comparing → ActiveRule → Text → ShareRow → Type 0
WhereMatches test r key_hash row =
    let selected = selects test (share_values row) in
    (selected (active_query r ∷ []) ≡ predicate r row)
    × (selected (expired_query r ∷ []) ≡ expired_predicate r row)
    × (selected (public_query r) ≡ listed_public r row)
    × (selected (key_query r key_hash) ≡ listed_by_key r key_hash row)
    × (selected expiry_query ≡ (is_nil row.purged_at && not (is_nil row.expires_at)))
    × (selected unprotected_query ≡ (not row.encrypted || is_nil row.download_password_hash))
    × (selected purged_query ≡ not (is_nil row.purged_at))

-- Under SQL's three-valued logic, where the database has the equality of texts and of Booleans and the
-- BINARY order of texts, the `Where` of each query of the store selects a row of the shares table exactly
-- if the Boolean test that the model of the query filters by holds of it: the active and the expired
-- Shares, the public list, the list of a key, and the queries for an expiry, for no protection and for
-- what is purged.
pub where_-WhereMatches :
    (test : Comparing)
    → IsBinary test
    → (r : ActiveRule) (key_hash : Text) (row : ShareRow) → WhereMatches test r key_hash row
where_-WhereMatches test h r k row = (
  active_selects test h r row,
  expired_selects test h r row,
  public_selects test h r row,
  key_selects test h r row k,
  expiry_selects test h r row,
  unprotected_selects test h r row,
  purged_selects test h r row,
)

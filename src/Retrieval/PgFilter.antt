-- ===== src/Retrieval/PgFilter.antt =====
-- The conditions of `_metadata_filter_sql` in src/storage/pgvector.py, as PostgreSQL evaluates them
-- on the metadata of a row: comparisons of texts, and of a price only if its text is a decimal.
use querix_semantic_search.Prelude.{
  ℕ, Bool, false, Option, none, some, List, any, Text, codes, text_eq, ℤ, leb_ℤ,
}
use querix_semantic_search.Retrieval.Products.{Value, null, text, number, get}
use querix_semantic_search.Retrieval.VectorSearch.{Clause, in_values, equals, at_least, at_most}

-- How a number is written, by Python and in JSON alike, and the amount of a text that matches
-- `^-?[0-9]+(\\.[0-9]+)?$`.
pub record Sql : Type 0 where
  pub number_text : ℕ → Text
  pub decimal : Text → Option ℤ

module _ (sql : Sql) where
  -- `metadata ->> key`, which is NULL for a JSON null as for a missing key.
  abbrev pub column : Value → Option Text
  column null = none
  column (text t) = some t
  column (number n) = some (sql.number_text n)

  -- `str(value)`.
  abbrev pub python_str : Value → Text
  python_str null = codes "None"
  python_str (text t) = t
  python_str (number n) = sql.number_text n

  -- NULL meets no condition.
  abbrev pub compares : (Text → Bool) → Option Text → Bool
  compares test none = false
  compares test (some t) = test t

  abbrev pub gated : (ℤ → Bool) → Text → Bool
  gated test t = elim (sql.decimal t) [ none ↦ false | some fee ↦ test fee ]

  unfoldable pub holds : List (Text × Value) → Clause → Bool
  holds metadata (in_values key values) =
      compares (λ t. any (λ v. text_eq t (python_str v)) values) (column (get key metadata))
  holds metadata (equals key value) =
      compares (λ t. text_eq t (python_str value)) (column (get key metadata))
  holds metadata (at_least minimum) =
      compares (gated (λ fee. leb_ℤ minimum fee)) (column (get (codes "rental_fee") metadata))
  holds metadata (at_most maximum) =
      compares (gated (λ fee. leb_ℤ fee maximum)) (column (get (codes "rental_fee") metadata))

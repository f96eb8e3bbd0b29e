-- ===== src/Msn/Examples.antt =====
-- The theorem on aliases, applied to a file of two lines.
use fritz2ci.Prelude.{◌≡◌, refl, some, [], ◌∷◌, ◌++◌, map, arith, ◌>>=◌}
use fritz2ci.Msn.{read_file, lookup}
use fritz2ci.Msn.Lookup.{Line, IsLine, line_bytes, found, lookup-read_file}

-- "12\tab\n" and " 34 c d\n", as fgets gives them.
abbrev first : Line
first = record {
  indent = [];
  msn = 49 ∷ 50 ∷ [];
  gap = 9 ∷ [];
  alias = 97 ∷ 98 ∷ [];
  tail = 10 ∷ 0 ∷ [];
}

abbrev second : Line
second = record {
  indent = 32 ∷ [];
  msn = 51 ∷ 52 ∷ [];
  gap = 32 ∷ [];
  alias = 99 ∷ 32 ∷ 100 ∷ [];
  tail = 10 ∷ 0 ∷ [];
}

first-IsLine : IsLine first
first-IsLine = record {
  indent = tt;
  msn = (refl, (refl, tt));
  msn_start = refl;
  msn_size = omega arith;
  gap = (refl, tt);
  gap_start = refl;
  alias = (refl, (refl, tt));
  alias_start = refl;
  alias_size = omega arith;
  tail = refl;
  no_nul = (omega arith, (omega arith, tt));
}

second-IsLine : IsLine second
second-IsLine = record {
  indent = (refl, tt);
  msn = (refl, (refl, tt));
  msn_start = refl;
  msn_size = omega arith;
  gap = (refl, tt);
  gap_start = refl;
  alias = (refl, (refl, (refl, tt)));
  alias_start = refl;
  alias_size = omega arith;
  tail = refl;
  no_nul = (omega arith, (omega arith, tt));
}

lookup-read_file_example :
    (read_file (map line_bytes (first ∷ second ∷ [])) >>= λ entries.
    lookup entries ((51 ∷ 52 ∷ []) ++ (0 ∷ [])))
    ≡ some (found (first ∷ second ∷ []) (51 ∷ 52 ∷ []))
lookup-read_file_example =
    lookup-read_file (first ∷ second ∷ []) (51 ∷ 52 ∷ []) [] (first-IsLine, (second-IsLine, tt))
      (omega arith, (omega arith, tt))

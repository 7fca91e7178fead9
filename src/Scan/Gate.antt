-- ===== src/Scan/Gate.antt =====
-- What the scan lets through.
use botchatgptclaude.Prelude.{String, ◌≡◌, Bool, not, ◌&&◌, ◌||◌, arith, is_some}
use botchatgptclaude.Scan.{Found, scan_rules, scan_content, has_blocking_violation, is_fatal}

-- Whether one of the seven patterns that no approval overrides matches.
abbrev pub matches_hard : Found → String → Bool
matches_hard found s =
    is_some (found 0 s)
    || is_some (found 1 s)
    || is_some (found 2 s)
    || is_some (found 3 s)
    || is_some (found 4 s)
    || is_some (found 5 s)
    || is_some (found 6 s)

module _ (found : Found) (approved : Bool) (content : String) where
  -- The scan blocks exactly when a hard pattern matches, or the migration pattern does without an
  -- approval; and it is fatal, so that no approval helps, exactly when a hard pattern matches.
  pub scan_content-blocks :
      (has_blocking_violation (scan_content found approved content)
        ≡ (matches_hard found content || (is_some (found 7 content) && not approved)))
      × (is_fatal (scan_content found approved content) ≡ matches_hard found content)
  unfolding scan_content scan_rules has_blocking_violation is_fatal
  scan_content-blocks = (ground arith, ground arith)

-- ===== src/Service/Recorded/Convert.antt =====
-- A conflict of a merge is summed up in the same way by both paths to the run store.
use quadsyncd.Base.{◌≡◌, refl, sym, ap, List, [], ◌∷◌, map, All}
use quadsyncd.Base.Text.{Text}
use quadsyncd.Multirepo.{EffectiveItem, Conflict}
use quadsyncd.Runstore.{item_summary, conflict_summary_from_multirepo}
use quadsyncd.Sync.Engine.{loser_of, report_conflict}
use quadsyncd.Service.Recorded.{loser_summary, conflict_summary_from_sync}

-- The items of a conflict have its key.
abbrev pub IsKeyed : Conflict → Type 0
IsKeyed c =
    (c.winner.merge_key ≡ c.merge_key)
    × All (λ (l : EffectiveItem). l.merge_key ≡ c.merge_key) c.losers

loser_summary-loser_of :
    (k : Text) (l : EffectiveItem) → l.merge_key ≡ k → loser_summary k (loser_of l) ≡ item_summary l
unfolding loser_summary loser_of item_summary
loser_summary-loser_of k l e =
    ap
      (λ (x : Text). record {
        merge_key = x;
        source_repo = l.source_repo;
        source_ref = l.source_ref;
        source_sha = l.source_sha;
      })
      (sym e)

losers_agree :
    (k : Text) (ls : List EffectiveItem)
    → All (λ (l : EffectiveItem). l.merge_key ≡ k) ls
    → map (loser_summary k) (map loser_of ls) ≡ map item_summary ls
losers_agree k [] h = refl
losers_agree k (l ∷ ls) h = rw (loser_summary-loser_of k l h.0, losers_agree k ls h.1) refl

-- What the engine reports of a conflict and the services sum up is the summary of the conflict that
-- the merge found, whose items all have its key: nothing of it is lost on the way.
pub conflict_summary_from_sync-report_conflict :
    (c : Conflict)
    → IsKeyed c
    → conflict_summary_from_sync (report_conflict c) ≡ conflict_summary_from_multirepo c
unfolding conflict_summary_from_sync report_conflict conflict_summary_from_multirepo item_summary
conflict_summary_from_sync-report_conflict c h =
    let same = losers_agree c.merge_key c.losers h.1 in
    λ i. record {
      merge_key = c.merge_key;
      winner = record {
        merge_key = sym h.0 i;
        source_repo = c.winner.source_repo;
        source_ref = c.winner.source_ref;
        source_sha = c.winner.source_sha;
      };
      losers = same i;
    }

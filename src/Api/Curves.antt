-- ===== src/Api/Curves.antt =====
-- The equity curve of a run, which the worker saves in the artifact store and
-- src/quant_pilot/api/routers/backtests.py serves from it.
use quant_pilot.Base.{String, ◌≡◌, ◌⊎◌, inl, inr, refl, ap, Option, none, some, List, ◌∷◌, maybe}
use quant_pilot.Repository.{Table}
use quant_pilot.Repository.Runs.{BacktestRunOrm}
use quant_pilot.Worker.Backtest.{success, failure, equity_key, attempt, ending}
use quant_pilot.Stores.Artifacts.{
  FileSystem, IsFileSystem, Location, KeepsOthers, save_json, load_json, save_bytes_lem,
}
use quant_pilot.Api.Backtests.{get_equity_curve}

module _ {B C F : Type 0} (fs : FileSystem B F) (place : Location B) (dumps : List C → B)
    (loads : B → List C) (message : String) where
  -- `LocalArtifactStore(...).save_json`; what it returns is not used, what it raises has a message.
  unfoldable pub save_artifact : String → List C → F → F × Option String
  save_artifact key curve s =
      let (s', saved) = save_json fs place dumps loads key curve s in
      (s', maybe saved (some message) λ _. none)

  -- A computation that gives a curve either succeeds, and the curve is then served as it was
  -- computed, or saving it raised, which is the verdict, and every file but that of the curve is as
  -- it was. JSON that is written is read as it was.
  pub get_equity_curve-attempt :
      {S : Type 0} (runs : Table BacktestRunOrm S) (compute : String → (String × List C) ⊎ String)
      → IsFileSystem fs
      → ((curve : List C) → loads (dumps curve) ≡ curve)
      → (run_id params metrics : String) (point : C) (points : List C) (s : F)
      → compute params ≡ inl (metrics, point ∷ points)
      → let (s', verdict) = attempt runs compute save_artifact run_id params s in
        ((verdict ≡ success metrics)
          × (get_equity_curve fs place dumps loads run_id s' ≡ inl (some (point ∷ points))))
        ⊎ ((verdict ≡ failure message) × KeepsOthers fs place (equity_key run_id) s s')
  unfolding attempt ending save_artifact save_json get_equity_curve load_json equity_key
  get_equity_curve-attempt runs compute laws json run_id params metrics point points s computed =
      let (kept, raised) = save_artifact (equity_key run_id) (point ∷ points) s in
      let ran : attempt runs compute save_artifact run_id params s
          ≡ (kept, maybe raised (success metrics) failure) =
        ap
          (λ (outcome : (String × List C) ⊎ String).
            ending runs compute save_artifact run_id outcome s)
          computed in
      let (_, saved) =
        save_bytes_lem fs place laws (equity_key run_id) (dumps (point ∷ points)) "application/json"
          s in
      rw ran (elim saved [
        | inl (refused, inl (_, same)) ↦
            inr (rw refused refl, λ path. inr (ap (λ t. fs.read_bytes t path) same))
        | inl (refused, inr (_, kept)) ↦ inr (rw refused refl, kept)
        | inr (file, ref, stored, _, _, loaded, there, _) ↦
            inl (rw stored refl, rw there (rw loaded (rw (json (point ∷ points)) refl)))
      ])

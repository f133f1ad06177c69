-- ===== src/Storage/Deploys.antt =====
-- core/storage.py, the `deployments` table.
use wakey.Prelude.{List, String, [], if◌then◌else◌, leb, select_where, take, ℕ, ◌++◌, ◌==◌, ◌∷◌}
use wakey.Models.{DeployEvent}

unfoldable pub save_deploy : DeployEvent → List DeployEvent → List DeployEvent
save_deploy event rows = rows ++ event ∷ []

-- `ORDER BY deployed_at DESC`; rows of one time keep the order of the table
unfoldable pub insert_latest : DeployEvent → List DeployEvent → List DeployEvent
insert_latest x [] = x ∷ []
insert_latest x (y ∷ ys) =
    let further = y ∷ insert_latest x ys in
    if leb y.deployed_at x.deployed_at then x ∷ y ∷ ys else further

unfoldable pub latest_first : List DeployEvent → List DeployEvent
unfolding insert_latest
latest_first [] = []
latest_first (x ∷ xs) = insert_latest x (latest_first xs)

unfoldable pub list_recent_deploys : String → ℕ → List DeployEvent → List DeployEvent
unfolding latest_first
list_recent_deploys service limit rows =
    take limit (latest_first (select_where (λ (d : DeployEvent). d.service == service) rows))

-- ===== src/Scope/Baseline.antt =====
-- The curated scopes (pkgward/scope_watchlist.py, BASELINE_SCOPES and PROLIFIC_SCOPES).
use pkgsentry_oss.Prelude.{List, [], ◌∷◌, ◌++◌, String, Bool, if◌then◌else◌}
use pkgsentry_oss.Prelude.Texts.{Text, codes}

abbrev pub baseline_npm : List Text
baseline_npm =
    codes "@aws-sdk"
    ∷ codes "@aws-amplify"
    ∷ codes "@azure"
    ∷ codes "@google-cloud"
    ∷ codes "@cloudflare"
    ∷ codes "@vercel"
    ∷ codes "@netlify"
    ∷ codes "@supabase"
    ∷ codes "@firebase"
    ∷ codes "@datadog"
    ∷ codes "@sentry"
    ∷ codes "@elastic"
    ∷ codes "@grafana"
    ∷ codes "@newrelic"
    ∷ codes "@angular"
    ∷ codes "@vue"
    ∷ codes "@nestjs"
    ∷ codes "@remix-run"
    ∷ codes "@sveltejs"
    ∷ codes "@nuxt"
    ∷ codes "@astrojs"
    ∷ codes "@apollo"
    ∷ codes "@prisma"
    ∷ codes "@octokit"
    ∷ codes "@actions"
    ∷ codes "@npmcli"
    ∷ codes "@yarnpkg"
    ∷ codes "@nrwl"
    ∷ codes "@nx"
    ∷ codes "@changesets"
    ∷ codes "@vitejs"
    ∷ codes "@swc"
    ∷ codes "@typescript-eslint"
    ∷ codes "@storybook"
    ∷ codes "@okta"
    ∷ codes "@auth0"
    ∷ codes "@clerk"
    ∷ codes "@stripe"
    ∷ codes "@paypal"
    ∷ codes "@snyk"
    ∷ codes "@redhat-cloud-services"
    ∷ codes "@redhat"
    ∷ codes "@microsoft"
    ∷ codes "@ibm"
    ∷ []

abbrev pub baseline_gomod : List Text
baseline_gomod =
    codes "golang.org/x"
    ∷ codes "google.golang.org"
    ∷ codes "k8s.io"
    ∷ codes "sigs.k8s.io"
    ∷ codes "go.uber.org"
    ∷ codes "cloud.google.com/go"
    ∷ codes "github.com/aws"
    ∷ codes "github.com/Azure"
    ∷ codes "github.com/googleapis"
    ∷ codes "github.com/google"
    ∷ codes "github.com/kubernetes"
    ∷ codes "github.com/hashicorp"
    ∷ codes "github.com/grafana"
    ∷ codes "github.com/prometheus"
    ∷ codes "github.com/open-telemetry"
    ∷ codes "github.com/cloudflare"
    ∷ codes "github.com/docker"
    ∷ codes "github.com/sigstore"
    ∷ codes "github.com/gohugoio"
    ∷ codes "github.com/spf13"
    ∷ []

abbrev pub baseline_pypi : List Text
baseline_pypi =
    codes "azure"
    ∷ codes "google-cloud"
    ∷ codes "aws-cdk"
    ∷ codes "opentelemetry"
    ∷ codes "apache-airflow"
    ∷ codes "snowflake"
    ∷ codes "databricks"
    ∷ codes "msrest"
    ∷ codes "boto3"
    ∷ codes "botocore"
    ∷ []

-- what is wanted of each ecosystem, with the prolific scopes if they are asked for
abbrev pub wanted_scopes : Bool → List (String × List Text)
wanted_scopes want_prolific =
    ("npm", baseline_npm ++ (if want_prolific then codes "@types" ∷ codes "@babel" ∷ [] else []))
    ∷ ("gomod", baseline_gomod)
    ∷ ("pypi", baseline_pypi ++ (if want_prolific then codes "types" ∷ [] else []))
    ∷ []

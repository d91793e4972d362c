-- ===== src/Monitoring/Tests.antt =====
-- The sources on concrete values.
use ready_jlmirror.Common.{◌<◌, ◌≤◌, true, ◌≡◌}
use ready_jlmirror.Monitoring.Slug.{slugify, size, all_slug, slugify-bounded}

slugify-bounded_example :
    (0 < size (slugify (λ t. t) "cliente x 7"))
    × (size (slugify (λ t. t) "cliente x 7") ≤ 40)
    × (all_slug (slugify (λ t. t) "cliente x 7") ≡ true)
slugify-bounded_example = slugify-bounded (λ t. t) "cliente x 7"

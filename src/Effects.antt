-- ===== src/Effects.antt =====
-- What a handler does outside the database: analytics events and emails, in order. Log lines are
-- not modelled.
use pathway_backend.Prelude.{String}

pub data Effect : Type 0 where
  -- `analytics.capture(event, userId, …)`
  capture : (event user_id : String) → Effect
  -- `notificationService.send(to, template, { …secret… })`
  mail : (to template secret : String) → Effect

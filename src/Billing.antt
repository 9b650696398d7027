-- ===== src/Billing.antt =====
-- Money and access: the rows of payments and subscriptions, the term of a subscription, the
-- creation and the confirmation of payments, and the gate that reads the term (app/models,
-- app/application/billing, app/services/payment_service.py, subscription_service.py,
-- billing_cache.py).
pub mod Models
pub mod Period
pub mod Store
pub mod Payments
pub mod Webhook
pub mod Access
pub mod Tests
